-- ===== src/Proto/Buffer/Wire.antt =====
-- What `Read` and `Write` do in the middle of a buffer, as laws that compose along a chain.
use ged2k.Prelude.{
  ℕ, zero, suc, ◌+◌, ◌/◌, ◌^◌, ◌<◌, ◌≤◌, ◌≡◌, ◌≢◌, refl, ap, ◌∙◌, none, List, [], ◌∷◌, ◌++◌, length,
  length-append, take, drop, take_past, drop_past, set_past, replicate, take-append-drop,
  length-take, length-drop, length-replicate, arith,
}
use mathlib.Core.List.{append-nil, append_assoc}
use native.Mathlib.Nat.{pow-suc}
use mathlib.Core.Path.{subst}
use ged2k.Proto.Buffer.{
  StateBuffer, le_bytes, le_value, slice, store, Reader, pure, ◌>>=◌, ◌>>◌, read_uint, read_num,
  read_slice, read, write_slice, write_uint, write, make_buffer, reread, if_ok, commit,
}

-- Standing behind `front`, with `back` still to come.
abbrev pub at : List ℕ → List ℕ → StateBuffer
at front back = record { bytes = front ++ back; err = none; pos = length front }

-- `m` takes the bytes `w` for the value `v`.
pub record Reads {A : Type 0} (m : Reader A) (w : List ℕ) (v : A) : Type 0 where
  pub run : (front back : List ℕ) → m (at front (w ++ back)) ≡ (v, at (front ++ w) back)

-- `p` puts the bytes `w` in the place of as many others.
pub record Writes (p : StateBuffer → StateBuffer) (w : List ℕ) : Type 0 where
  pub run :
      (front old back : List ℕ)
      → length old ≡ length w
      → p (at front (old ++ back)) ≡ at (front ++ w) back

pub length-le_bytes : (width v : ℕ) → length (le_bytes width v) ≡ width
unfolding le_bytes
length-le_bytes zero v = refl
length-le_bytes (suc width) v = ap suc (length-le_bytes width (v / 256))

pub le_value-le_bytes : (width v : ℕ) → v < 256 ^ width → le_value (le_bytes width v) ≡ v
unfolding le_bytes le_value
le_value-le_bytes zero v h = omega arith
le_value-le_bytes (suc width) v h =
    omega (arith, le_value-le_bytes width (v / 256) (omega (arith, pow-suc 256 width)))

slice_mid : (front w back : List ℕ) → slice (front ++ (w ++ back)) (length front) (length w) ≡ w
slice_mid front w back = rw (drop_past front (w ++ back)) (take_past w back)

length_snoc : (xs : List ℕ) (x : ℕ) → length (xs ++ (x ∷ [])) ≡ suc (length xs)
length_snoc xs x = omega (arith, length-append xs (x ∷ []))

store_mid :
    (front old new back : List ℕ)
    → length old ≡ length new
    → store (front ++ (old ++ back)) (length front) new ≡ (front ++ new) ++ back
unfolding store
store_mid front [] [] back h = rw append-nil
store_mid front [] (y ∷ ys) back h = absurd (omega arith)
store_mid front (x ∷ xs) [] back h = absurd (omega arith)
store_mid front (x ∷ xs) (y ∷ ys) back h =
    rw
      (
        set_past front (xs ++ back) x y,
        ← append_assoc front (y ∷ []) (xs ++ back),
        ← length_snoc front y,
      )
      (store_mid (front ++ (y ∷ [])) xs ys back (omega arith) ∙ rw (append_assoc front (y ∷ []) ys))

long_enough : (front w back : List ℕ) → length front + length w ≤ length (front ++ (w ++ back))
long_enough front w back = omega (arith, length-append front (w ++ back), length-append w back)

-- The buffer after `w` was passed.
at_next :
    (front w back : List ℕ)
    → record { bytes = front ++ (w ++ back); err = none; pos = length front + length w }
      ≡ at (front ++ w) back
at_next front w back = rw (append_assoc front w back, length-append front w)

pub Reads-pure : {A : Type 0} (v : A) → Reads (pure v) [] v
unfolding pure
Reads-pure v = record { run = λ front back. rw append-nil }

pub Reads->>= :
    {A B : Type 0} (m : Reader A) (f : A → Reader B) {w u : List ℕ} {v : A} {b : B}
    → Reads m w v
    → Reads (f v) u b
    → Reads (m >>= f) (w ++ u) b
unfolding ◌>>=◌
Reads->>= m f {w = w} {u = u} {v = v} h k = record {
  run = λ front back. rw (
    append_assoc w u back,
    h.run front (u ++ back),
    k.run (front ++ w) back,
    append_assoc front w u,
  );
}

pub Reads->> :
    {A B : Type 0} (m : Reader A) (k : Reader B) {w u : List ℕ} {v : A} {b : B}
    → Reads m w v
    → Reads k u b
    → Reads (m >> k) (w ++ u) b
unfolding ◌>>◌
Reads->> m next {w = w} {u = u} {v = v} h k = record {
  run = λ front back. rw (
    append_assoc w u back,
    h.run front (u ++ back),
    k.run (front ++ w) back,
    append_assoc front w u,
  );
}

-- The last read of a block, whose value is only packed up.
pub Reads-map :
    {A B : Type 0} {m : Reader A} {w : List ℕ} {v : A} (g : A → B)
    → Reads m w v
    → Reads (m >>= λ a. pure (g a)) w (g v)
unfolding ◌>>=◌ pure
Reads-map g h = record { run = λ front back. rw (h.run front back) }

pub Reads-read :
    {A : Type 0} (get : A → Reader A) {old v : A} {w : List ℕ}
    → Reads (get old) w v
    → Reads (read get old) w v
unfolding read
Reads-read get h = record { run = λ front back. h.run front back }

pub Reads-read_uint : (width v : ℕ) → v < 256 ^ width → Reads (read_uint width) (le_bytes width v) v
unfolding read_uint
Reads-read_uint width v h = record {
  run = λ front back. ground (
    arith,
    long_enough front (le_bytes width v) back,
    length-le_bytes width v,
    slice_mid front (le_bytes width v) back,
    le_value-le_bytes width v h,
    at_next front (le_bytes width v) back,
  );
}

pub Reads-read_num :
    (width old v : ℕ) → v < 256 ^ width → Reads (read_num width old) (le_bytes width v) v
unfolding read_num
Reads-read_num width old v h = record {
  run = λ front back. ground (
    arith,
    long_enough front (le_bytes width v) back,
    length-le_bytes width v,
    slice_mid front (le_bytes width v) back,
    le_value-le_bytes width v h,
    at_next front (le_bytes width v) back,
  );
}

pub Reads-read_slice :
    (old w : List ℕ) → length old ≡ length w → w ≢ [] → Reads (read_slice old) w w
unfolding read_slice
Reads-read_slice old w e ne = record {
  run = λ front back. ground (
    arith,
    long_enough front w back,
    slice_mid front w back,
    at_next front w back,
    length-ne-zero w ne,
  );
}
  where
    length-ne-zero : (xs : List ℕ) → xs ≢ [] → length xs ≢ 0
    length-ne-zero [] n h = n refl
    length-ne-zero (x ∷ xs) n h = absurd (omega arith)

pub Writes-write_slice : (w : List ℕ) → Writes (write_slice w) w
unfolding write_slice
Writes-write_slice w = record {
  run = λ front old back e.
      ground
        (arith, long_enough front old back, store_mid front old w back e, length-append front w);
}

-- A step that writes nothing.
pub Writes-none : Writes (λ sb. sb) []
Writes-none = record { run = λ front old back e. nothing front old back e }
  where
    nothing :
        (front old back : List ℕ)
        → length old ≡ 0
        → ◌≡◌ {A = StateBuffer} (at front (old ++ back)) (at (front ++ []) back)
    nothing front [] back e = rw append-nil
    nothing front (x ∷ xs) back e = absurd (omega arith)

pub Writes-write_uint : (width v : ℕ) → Writes (write_uint width v) (le_bytes width v)
unfolding write_uint
Writes-write_uint width v = Writes-write_slice (le_bytes width v)

pub Writes-write : {p : StateBuffer → StateBuffer} {w : List ℕ} → Writes p w → Writes (write p) w
unfolding write
Writes-write h = record { run = λ front old back e. h.run front old back e }

pub Writes-cong : {p : StateBuffer → StateBuffer} {w u : List ℕ} → w ≡ u → Writes p w → Writes p u
Writes-cong {p = p} e h = subst (Writes p) e h

Reads-cong : {A : Type 0} {m : Reader A} {w u : List ℕ} {v : A} → w ≡ u → Reads m w v → Reads m u v
Reads-cong {m = m} {v = v} e h = subst (λ w. Reads m w v) e h

-- The same read, and the same value, in other words.
pub Reads-by :
    {A : Type 0} {m n : Reader A} {w : List ℕ} {v u : A} → m ≡ n → v ≡ u → Reads n w v → Reads m w u
Reads-by {m = m} {n = n} {w = w} {v = v} {u = u} e f h = rw e (rw f at h)

-- A step of a chain after what the chain has written.
pub Writes-then :
    {p q : StateBuffer → StateBuffer} {w u : List ℕ}
    → Writes p w
    → Writes q u
    → Writes (λ sb. q (p sb)) (w ++ u)
Writes-then {w = w} {u = u} h k = record {
  run = λ front old back e.
      let one : List ℕ = take (length w) old in
      let two : List ℕ = drop (length w) old in
      let n : length one ≡ length w =
        omega (arith, length-take (length w) old, length-append w u, e) in
      let m : length two ≡ length u =
        omega (arith, length-drop (length w) old, length-append w u, e) in
      let split : old ++ back ≡ one ++ (two ++ back) =
        rw (← append_assoc one two back, take-append-drop (length w) old) in
      rw (
        split,
        h.run front one (two ++ back) n,
        k.run (front ++ w) two back m,
        append_assoc front w u,
      );
}

-- What a fresh buffer of the right size holds after a write.
pub Writes-fresh :
    {p : StateBuffer → StateBuffer} {w : List ℕ}
    → Writes p w
    → p (make_buffer (length w)) ≡ record { bytes = w; err = none; pos = length w }
Writes-fresh {p = p} {w = w} h =
    rw (append-nil, append-nil) at
      (h.run [] (replicate (length w) 0) [] (length-replicate (length w) 0))

-- What was written to a fresh buffer of the right size reads back from its start.
pub Reads-Writes :
    {A : Type 0} {m : Reader A} {p : StateBuffer → StateBuffer} {w : List ℕ} {v : A}
    → Writes p w
    → Reads m w v
    → m (reread (p (make_buffer (length w))))
      ≡ (v, record { bytes = w; err = none; pos = length w })
Reads-Writes h k = rw (Writes-fresh h) (rw append-nil at (k.run [] []))

pub Reads-if_ok :
    {A : Type 0} {m : Reader A} (old : A) {v : A} {w : List ℕ}
    → Reads m w v
    → Reads (if_ok old m) w v
unfolding if_ok
Reads-if_ok old h = record { run = λ front back. h.run front back }

pub Reads-commit :
    {A : Type 0} {m : Reader A} (old : A) {v : A} {w : List ℕ}
    → Reads m w v
    → Reads (commit old m) w v
unfolding commit
Reads-commit old h = record { run = λ front back. ground (arith, h.run front back) }
