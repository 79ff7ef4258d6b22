-- ===== src/Sessions/Quit.antt =====
-- session.go: when the loop `Session.Tick` must end.
pub mod Ticks
pub mod Commands
pub mod Steps
use ged2k.Prelude.{
  ℕ, ◌-◌, ◌≡◌, ◌∙◌, refl, Bool, true, false, Bool-cases, if_both, if◌then◌else◌, inl, inr, List, [],
  ◌∷◌, ok, ◌>>=◌, Ensures, Ensures->>=, arith,
}
use ged2k.Proto.Basic.{Endpoint}
use ged2k.Peers.{same_endpoint}
use ged2k.Sessions.{
  set_key, is_none, Link, Session, Output, nothing_left, change_link, close, close_each,
}
use mathlib.Core.Path.{sym}

-- A session that was stopped, and has neither connections nor transfers, does not go on.
unfoldable pub Quits : Session → Type 0
Quits s = s.stopped ≡ true → nothing_left s ≡ true → s.execute ≡ false

-- A change that leaves something behind whenever there was something.
pub record Grows (s t : Session) : Type 0 where
  pub stopped : t.stopped ≡ s.stopped
  pub execute : t.execute ≡ s.execute
  pub left : nothing_left t ≡ true → nothing_left s ≡ true

pub Grows-Quits : (s t : Session) → Grows s t → Quits s → Quits t
unfolding Quits
Grows-Quits s t g h st n = g.execute ∙ h (sym g.stopped ∙ st) (g.left n)

pub Grows-same :
    (s t : Session)
    → t.stopped ≡ s.stopped
    → t.execute ≡ s.execute
    → t.connections ≡ s.connections
    → t.transfers ≡ s.transfers
    → Grows s t
unfolding nothing_left
Grows-same s t a b c d = record { stopped = a; execute = b; left = λ h. rw (← c, ← d) h }

pub Grows-trans : (s t u : Session) → Grows s t → Grows t u → Grows s u
Grows-trans s t u g h = record {
  stopped = h.stopped ∙ g.stopped;
  execute = h.execute ∙ g.execute;
  left = λ n. g.left (h.left n);
}

pub Grows-refl : (s : Session) → Grows s s
Grows-refl s = Grows-same s s refl refl refl refl

pub set_key-some :
    {K V : Type 0} (same : K → K → Bool) (k : K) (v : V) (xs : List (K × V))
    → is_none (set_key same k v xs) ≡ false
unfolding set_key is_none
set_key-some same k v [] = refl
set_key-some same k v ((j, w) ∷ rest) = elim (Bool-cases (same j k)) [
  | inl e ↦ rw (e, set_key) refl
  | inr e ↦ rw (e, set_key) refl
]

-- A map that was put into is not empty.
pub Grows-connected :
    (s t : Session) (e : Endpoint) (n : ℕ) (c : List (Endpoint × ℕ))
    → t.stopped ≡ s.stopped
    → t.execute ≡ s.execute
    → t.connections ≡ set_key same_endpoint e n c
    → Grows s t
unfolding nothing_left
Grows-connected s t e n c a b h = record {
  stopped = a;
  execute = b;
  left = λ m. absurd (ground (arith, rw (h, set_key-some same_endpoint e n c) at m));
}

-- The same of what a case gives.
abbrev pub GrowsTo : Session → Session × List Output → Type 0
GrowsTo s r = Grows s r.0

pub close-Grows : (r : ℕ) (s : Session) → Ensures (GrowsTo s) (close r s)
unfolding close change_link
close-Grows r s =
    if_both (Ensures (GrowsTo s)) (s.links r).connected
      (if_both (Ensures (GrowsTo s)) (s.links r).dialed (Grows-refl s) tt)
      (Grows-same s _ refl refl refl refl)

pub close_each-Grows :
    (test : Link → Bool) (c : List (Endpoint × ℕ)) (s : Session)
    → Ensures (GrowsTo s) (close_each test c s)
unfolding close_each
close_each-Grows test [] s = Grows-refl s
close_each-Grows test ((e, r) ∷ rest) s =
    Ensures->>= (GrowsTo s) (GrowsTo s) (if test (s.links r) then close r s else ok (s, [])) _
      (if_both (Ensures (GrowsTo s)) (test (s.links r)) (close-Grows r s) (Grows-refl s))
      (λ closed g.
        Ensures->>= (GrowsTo closed.0) (GrowsTo s) (close_each test rest closed.0) _
          (close_each-Grows test rest closed.0) (λ others h. Grows-trans s closed.0 others.0 g h))
