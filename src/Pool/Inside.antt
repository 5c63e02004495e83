-- ===== src/Pool/Inside.antt =====
-- A serial key and its mutex: who is inside a task with a key holds the mutex stored for it.
use corekit.Base.{
  ℕ, ◌≤◌, ◌<◌, ◌≡◌, sym, ap, ◌∙◌, Bool, true, false, Option, none, some, List, ◌==◌, if◌then◌else◌,
  Bool-cases, inl, inr, arith,
}
use corekit.Pool.State.{plain, tracked, taken, threw, over, begun, Worker}
use corekit.Pool.Work.{holds}
use corekit.Pool.Places.{Each, Each-map, total, total-le, total-zero}
use corekit.Pool.Sound.{Known, holders}

-- Whether a worker is inside a task with this key: behind its second section, until its callable
-- returns or throws.
abbrev pub is_inside : ℕ → Worker → Bool
is_inside k (tracked id key key_mu, begun c) = key == k
is_inside k w = false

abbrev pub insiders : ℕ → List Worker → ℕ
insiders k = total (λ w. if is_inside k w then 1 else 0)

-- A worker inside a task with a key holds the mutex that is stored for the key.
inside-holds :
    (next : ℕ) (mutexes : ℕ → Option ℕ) (k m : ℕ) (w : Worker)
    → 0 < k
    → mutexes k ≡ some m
    → Known next mutexes w.0
    → (if is_inside k w then 1 else 0) ≤ (if holds m w then 1 else 0)
inside-holds next mutexes k m (plain, f) h e known = omega arith
inside-holds next mutexes k m (tracked id key none, taken) h e known = omega arith
inside-holds next mutexes k m (tracked id key none, threw) h e known = omega arith
inside-holds next mutexes k m (tracked id key none, over) h e known = omega arith
inside-holds next mutexes k m (tracked id key none, begun c) h e known = ground (arith, known.1)
inside-holds next mutexes k m (tracked id key (some own), taken) h e known = omega arith
inside-holds next mutexes k m (tracked id key (some own), threw) h e known = omega arith
inside-holds next mutexes k m (tracked id key (some own), over) h e known = omega arith
inside-holds next mutexes k m (tracked id key (some own), begun c) h e known =
    elim (Bool-cases (key == k)) [
      | inl same ↦
          let at : key ≡ k = ground arith in
          let stored : some own ≡ some m = sym known.1 ∙ ap mutexes at ∙ e in
          let one : own ≡ m = cc in
          let here : (own == m) ≡ true = ground arith in simp (same, here) (omega arith)
      | inr other ↦ simp (other) (omega arith)
    ]

inside-none :
    (next : ℕ) (mutexes : ℕ → Option ℕ) (k : ℕ) (w : Worker)
    → 0 < k
    → mutexes k ≡ none
    → Known next mutexes w.0
    → (if is_inside k w then 1 else 0) ≤ 0
inside-none next mutexes k (plain, f) h e known = omega arith
inside-none next mutexes k (tracked id key key_mu, taken) h e known = omega arith
inside-none next mutexes k (tracked id key key_mu, threw) h e known = omega arith
inside-none next mutexes k (tracked id key key_mu, over) h e known = omega arith
inside-none next mutexes k (tracked id key none, begun c) h e known = ground (arith, known.1)
inside-none next mutexes k (tracked id key (some own), begun c) h e known =
    elim (Bool-cases (key == k)) [
      | inl same ↦
          let at : key ≡ k = ground arith in
          absurd (let clash : some own ≡ none = sym known.1 ∙ ap mutexes at ∙ e in cc)
      | inr other ↦ simp (other) (omega arith)
    ]

pub insiders-alone :
    (next : ℕ) (mutexes : ℕ → Option ℕ) (ws : List Worker) (k : ℕ)
    → 0 < k
    → (o : Option ℕ) → mutexes k ≡ o
    → Each (λ w. Known next mutexes w.0) ws
    → ((m : ℕ) → holders m ws ≤ 1)
    → insiders k ws ≤ 1
insiders-alone next mutexes ws k h (some m) e known alone = omega (
  arith,
  alone m,
  total-le (λ w. if is_inside k w then 1 else 0) (λ w. if holds m w then 1 else 0) ws
      (Each-map ws (λ w c. inside-holds next mutexes k m w h e c) known),
)
insiders-alone next mutexes ws k h none e known alone = omega (
  arith,
  total-le (λ w. if is_inside k w then 1 else 0) (λ w. 0) ws
      (Each-map ws (λ w c. inside-none next mutexes k w h e c) known),
  total-zero ws,
)
