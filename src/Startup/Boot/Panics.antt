-- ===== src/Startup/Boot/Panics.antt =====
-- How far a process gets in which a goroutine panics.
use peikonpurekkusu_account.Prelude.{
  zero, ℕ, [], ◌∷◌, List, Option, refl, ◌≡◌, ◌++◌, arith, Bool, false, ◌||◌, suc, ap, Bool-cases,
  inl, inr, ◌⊎◌, ◌≢◌,
}
use peikonpurekkusu_account.Startup.Boot.{
  Event, StartError, End, returned, crashed, panics, panic_after, until_panic,
}

unfoldable pub any_panics : List Event → Bool
any_panics [] = false
any_panics (x ∷ rest) = panics x || any_panics rest

pub any_panics-append :
    (t u : List Event) → any_panics t ≡ false → any_panics u ≡ false → any_panics (t ++ u) ≡ false
unfolding any_panics
any_panics-append [] u e f = f
any_panics-append (x ∷ t) u e f = ground (arith, e, any_panics-append t u)

-- The process returns what `run` returns behind all of its statements, or crashes.
abbrev pub Stops : Option StartError → List Event → End × List Event → Type 0
Stops e t s = (s ≡ (returned e, t)) ⊎ ((u : List Event) × (s ≡ (crashed, u)))

and_before :
    (e : Option StartError) (x : Event) (t : List Event) (s : End × List Event)
    → Stops e t s
    → Stops e (x ∷ t) (s.0, x ∷ s.1)
and_before e x t s (inl r) = inl (ap (λ q. (q.0, x ∷ q.1)) r)
and_before e x t s (inr (u, r)) = inr (x ∷ u, ap (λ q. (q.0, x ∷ q.1)) r)

panic_after-Stops :
    (delay : ℕ) (e : Option StartError) (t : List Event) → Stops e t (panic_after delay e t)
unfolding panic_after
panic_after-Stops delay e [] = inl refl
panic_after-Stops zero e (x ∷ rest) = inr ([], refl)
panic_after-Stops (suc delay) e (x ∷ rest) =
    and_before e x rest (panic_after delay e rest) (panic_after-Stops delay e rest)

pub until_panic-Stops :
    (delay : ℕ) (e : Option StartError) (t : List Event) → Stops e t (until_panic delay e t)
unfolding until_panic
until_panic-Stops delay e [] = inl refl
until_panic-Stops delay e (x ∷ rest) = elim (Bool-cases (panics x)) [
  | inl p ↦ rw p (and_before e x rest (panic_after delay e rest) (panic_after-Stops delay e rest))
  | inr p ↦ rw p (and_before e x rest (until_panic delay e rest) (until_panic-Stops delay e rest))
]

pub until_panic-calm :
    (delay : ℕ) (e : Option StartError) (t : List Event)
    → any_panics t ≡ false
    → (until_panic delay e t).0 ≡ returned e
unfolding until_panic any_panics
until_panic-calm delay e [] c = refl
until_panic-calm delay e (x ∷ rest) c = ground (arith, c, until_panic-calm delay e rest)

pub two_ends : {e : Option StartError} → returned e ≢ crashed
two_ends h = cc
