-- ===== src/Sessions/Ends/Keys.antt =====
-- session.go: the keys of its maps, and the messages that take one away.
use ged2k.Prelude.{
  ℕ, ◌≡◌, refl, ◌||◌, Bool, true, false, none, some, List, [], ◌∷◌, same_bytes, arith,
}
use ged2k.Proto.Basic.{Ed2kHash, Endpoint}
use ged2k.Peers.{same_endpoint}
use ged2k.Sessions.{find_key, delete_key, is_none, Session}
use ged2k.Sessions.Step.{Message, link_closed, transfer_closed}

-- Whether a map has a key.
abbrev pub has : {K V : Type 0} → (K → K → Bool) → K → List (K × V) → Bool
has same k xs = elim (find_key same k xs) [ none ↦ false | some v ↦ true ]

module _ {K V : Type 0} (same : K → K → Bool) (self : (k : K) → same k k ≡ true)
    (euclid : (j k e : K) → same j k ≡ true → same e k ≡ true → same j e ≡ true) where
  -- A key that stays after a deletion was there, and is another one.
  pub has-delete_key :
      (e k : K) (xs : List (K × V))
      → has same k (delete_key same e xs) ≡ true
      → (has same k xs ≡ true) × (same e k ≡ false)
  unfolding delete_key find_key
  has-delete_key e k [] h = cc
  has-delete_key e k ((j, v) ∷ rest) h = ground (arith, has-delete_key e k rest, euclid j k e)

  pub none_left : (xs : List (K × V)) → ((k : K) → has same k xs ≡ true → ⊥) → is_none xs ≡ true
  unfolding is_none find_key
  none_left [] h = refl
  none_left ((j, v) ∷ rest) h = absurd (h j (rw (self j, has, find_key) refl))

pub same_endpoint_self : (e : Endpoint) → same_endpoint e e ≡ true
unfolding same_endpoint
same_endpoint_self e = ground arith

pub same_endpoint-euclid :
    (j k e : Endpoint)
    → same_endpoint j k ≡ true
    → same_endpoint e k ≡ true
    → same_endpoint j e ≡ true
unfolding same_endpoint
same_endpoint-euclid j k e a b = ground arith

pub same_bytes_self : (a : List ℕ) → same_bytes a a ≡ true
same_bytes_self [] = refl
same_bytes_self (x ∷ xs) = ground (arith, same_bytes_self xs)

pub same_bytes-euclid :
    (a b c : List ℕ) → same_bytes a b ≡ true → same_bytes c b ≡ true → same_bytes a c ≡ true
same_bytes-euclid [] [] [] h k = refl
same_bytes-euclid [] [] (z ∷ zs) h k = k
same_bytes-euclid [] (y ∷ ys) c h k = cc
same_bytes-euclid (x ∷ xs) [] c h k = cc
same_bytes-euclid (x ∷ xs) (y ∷ ys) [] h k = k
same_bytes-euclid (x ∷ xs) (y ∷ ys) (z ∷ zs) h k = ground (arith, same_bytes-euclid xs ys zs)

-- The messages by which a connection or a transfer goes.
unfoldable pub is_closing : Message → Bool
is_closing (link_closed r failed) = true
is_closing (transfer_closed r) = true
is_closing m = false

-- Whether a message ends a connection to the endpoint, or the transfer of the hash.
unfoldable pub closes_link : Session → Endpoint → Message → Bool
closes_link s e (link_closed r failed) = same_endpoint (s.links r).endpoint e
closes_link s e m = false

unfoldable pub closes_job : Session → Ed2kHash → Message → Bool
closes_job s h (transfer_closed r) = same_bytes (s.jobs r).hash h
closes_job s h m = false

unfoldable pub any_message : (Message → Bool) → List (ℕ × Message) → Bool
any_message test [] = false
any_message test ((now, m) ∷ ms) = test m || any_message test ms

pub any_message-same :
    (f g : Message → Bool)
    → ((m : Message) → f m ≡ g m)
    → (ms : List (ℕ × Message)) → any_message f ms ≡ any_message g ms
unfolding any_message
any_message-same f g h [] = refl
any_message-same f g h ((now, m) ∷ ms) = rw (h m, any_message-same f g h ms) refl

-- What stays of a session.
pub record Keeps (s t : Session) : Type 0 where
  pub stopped : t.stopped ≡ s.stopped
  pub endpoints : (k : ℕ) → (t.links k).endpoint ≡ (s.links k).endpoint
  pub hashes : (k : ℕ) → (t.jobs k).hash ≡ (s.jobs k).hash

pub closes_link-same :
    (s t : Session)
    → Keeps s t
    → (e : Endpoint) (m : Message) → closes_link t e m ≡ closes_link s e m
unfolding closes_link
closes_link-same s t k e (link_closed r failed) = rw (k.endpoints r) refl
closes_link-same s t k e m = refl

pub closes_job-same :
    (s t : Session) → Keeps s t → (h : Ed2kHash) (m : Message) → closes_job t h m ≡ closes_job s h m
unfolding closes_job
closes_job-same s t k h (transfer_closed r) = rw (k.hashes r) refl
closes_job-same s t k h m = refl
