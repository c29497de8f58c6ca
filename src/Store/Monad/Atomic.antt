-- ===== src/Store/Monad/Atomic.antt =====
-- Programs that leave the tables as they were where they fail, and inversion of successful ones.
use remy_cc.Prelude.{◌≡◌, refl}
use remy_cc.Job.{Result, ok, err, StateError}
use remy_cc.Store.Monad.{
  Store, M, ◌>>=◌, bind_from, return, lift, throw, transaction, settle, programs,
}

pub record IsAtomic {A : Type 0} (m : M A) (s : Store) : Type 0 where
  pub undone : {e : StateError} → (m s).0 ≡ err e → (m s).1 ≡ s

settle-undone :
    {A : Type 0} (r : Result A) (s s' : Store) {e : StateError}
    → (settle s (r, s')).0 ≡ err e
    → (settle s (r, s')).1 ≡ s
settle-undone (ok a) s s' h = cc
settle-undone (err e) s s' h = refl

settle-done :
    {A : Type 0} (r : Result A) (s s' : Store) {a : A}
    → (settle s (r, s')).0 ≡ ok a
    → (r ≡ ok a) × ((settle s (r, s')).1 ≡ s')
settle-done (ok a) s s' h = (h, refl)
settle-done (err e) s s' h = cc

pub transaction-IsAtomic : {A : Type 0} (m : M A) (s : Store) → IsAtomic (transaction m) s
unfolding programs
transaction-IsAtomic m s = record { undone = settle-undone (m s).0 s (m s).1 }

pub transaction-ok :
    {A : Type 0} (m : M A) (s : Store) {a : A}
    → (transaction m s).0 ≡ ok a
    → ((m s).0 ≡ ok a) × ((transaction m s).1 ≡ (m s).1)
unfolding programs
transaction-ok m s h = settle-done (m s).0 s (m s).1 h

pub throw-IsAtomic : {A : Type 0} (e : StateError) (s : Store) → IsAtomic (throw {A = A} e) s
unfolding programs
throw-IsAtomic e s = record { undone = λ h. refl }

pub lift-IsAtomic :
    {A B : Type 0} (r : Result A) (f : A → M B) (s : Store)
    → ((a : A) → IsAtomic (f a) s)
    → IsAtomic (lift r >>= f) s
unfolding programs
lift-IsAtomic (ok a) f s h = record { undone = (h a).undone }
lift-IsAtomic (err e) f s h = record { undone = λ h. refl }

pub lift-ok :
    {A B : Type 0} (r : Result A) (f : A → M B) (s : Store) {b : B}
    → ((lift r >>= f) s).0 ≡ ok b
    → (a : A) × (r ≡ ok a) × ((f a s).0 ≡ ok b) × (((lift r >>= f) s).1 ≡ (f a s).1)
unfolding programs
lift-ok (ok a) f s h = (a, refl, h, refl)
lift-ok (err e) f s h = cc

bind_return-undone :
    {A B : Type 0} (g : A → B) (r : Result A) (s t : Store)
    → ((e : StateError) → r ≡ err e → s ≡ t)
    → {e : StateError} → (bind_from (r, s) (λ a. return (g a))).0 ≡ err e
    → (bind_from (r, s) (λ a. return (g a))).1 ≡ t
unfolding programs
bind_return-undone g (ok a) s t h x = cc
bind_return-undone g (err e) s t h x = h e refl

-- A pure function of the result changes nothing of this.
pub bind_return-IsAtomic :
    {A B : Type 0} (m : M A) (g : A → B) (s : Store)
    → IsAtomic m s
    → IsAtomic (m >>= λ a. return (g a)) s
unfolding programs
bind_return-IsAtomic m g s h = record {
  undone = bind_return-undone g (m s).0 (m s).1 s (λ x e. h.undone e);
}

pub return-IsAtomic : {A : Type 0} (a : A) (s : Store) → IsAtomic (return a) s
unfolding programs
return-IsAtomic a s = record { undone = λ h. refl }

bind_same-undone :
    {A B : Type 0} (r : Result A) (s : Store) (f : A → M B)
    → ((a : A) → IsAtomic (f a) s)
    → {e : StateError} → (bind_from (r, s) f).0 ≡ err e
    → (bind_from (r, s) f).1 ≡ s
bind_same-undone (ok a) s f h x = (h a).undone x
bind_same-undone (err e) s f h x = refl

-- Behind a program that changes nothing.
pub bind_same-IsAtomic :
    {A B : Type 0} (m : M A) (f : A → M B) (s : Store)
    → (m s).1 ≡ s
    → ((a : A) → IsAtomic (f a) s)
    → IsAtomic (m >>= f) s
unfolding programs
bind_same-IsAtomic m f s same h = record {
  undone = λ x. rw same (bind_same-undone (m s).0 s f h (rw same at x));
}
