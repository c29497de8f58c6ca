-- ===== src/Store/Valid/Calm.antt =====
-- Updates that leave the state of a job and its successor alone, and fresh pending rows.
use remy_cc.Prelude.{Bool, true, ◌≡◌, sym, ◌∙◌, inl, inr, Memᴰ, update_if}
use remy_cc.Job.{JobRow}
use remy_cc.Store.Monad.{Store}
use remy_cc.Store.Valid.{checks, SameKey, IsPending, IsExecuting, Valid}
use remy_cc.Store.Valid.Update.{KeepsKeys, Alone, update-Valid}

pub record IsCalm (f : JobRow → JobRow) : Type 0 where
  pub keys : KeepsKeys f
  pub status : (r : JobRow) → (f r).status ≡ r.status
  pub successor : (r : JobRow) → (f r).superseded_by_job_id ≡ r.superseded_by_job_id

module _ (s : Store) (p : JobRow → Bool) (f : JobRow → JobRow) (c : IsCalm f) where
  calm-Alone :
      (P : JobRow → Type 0)
      → ((r : JobRow) → P (f r) → P r)
      → ((a b : JobRow) → Memᴰ a s.jobs → Memᴰ b s.jobs → P a → P b → SameKey a b → a.id ≡ b.id)
      → Alone P s p f
  calm-Alone P back old x y mx my px hx (inl (_, hy)) key = old x y mx my (back x hx) hy key
  calm-Alone P back old x y mx my px hx (inr (_, hy)) key =
      old x y mx my (back x hx) (back y hy) key

  pub calm-Valid :
      Valid s
      → ((r : JobRow) → Memᴰ r s.jobs → p r ≡ true → checks r ≡ true → checks (f r) ≡ true)
      → Valid (record s { jobs = update_if p f s.jobs })
  calm-Valid v chk = update-Valid s p f c.keys v (record {
    checked = λ r m h. chk r m h (v.checked r m);
    one_pending = calm-Alone IsPending (λ r e. sym (c.status r) ∙ e) v.one_pending;
    one_executing = calm-Alone IsExecuting (λ r e. rw (c.status r) at e) v.one_executing;
    successor = λ r i m h by. v.successor r i m (sym (c.successor r) ∙ by);
  })
