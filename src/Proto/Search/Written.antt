-- ===== src/Proto/Search/Written.antt =====
-- proto/search.go: a request on the wire.
use ged2k.Prelude.{
  ℕ, ◌+◌, ◌<◌, ◌^◌, ◌≡◌, refl, ap, Bool-cases, inl, inr, Option, none, some, List, [], ◌∷◌, ◌++◌,
  length, length-append, All, Outcome, ok, ltb, if◌then◌else◌, arith,
}
use ged2k.Proto.Buffer.{StateBuffer, le_bytes, make_buffer, write_uint}
use ged2k.Proto.Buffer.Wire.{
  Writes, Writes-fresh, Writes-then, Writes-write, Writes-write_uint, Writes-none, length-le_bytes,
}
use ged2k.Proto.Basic.{ByteContainer}
use ged2k.Proto.Basic.RoundTrip.{
  byte_container_bytes, Writes-put_byte_container, length-byte_container_bytes,
}
use ged2k.Proto.Search.{
  Entry, NumericEntry, numeric_entry, string_entry, operator_entry, paren_entry, max_uint32,
  search_type_bool, search_type_str, search_type_str_tag, put_numeric_entry, size_numeric_entry,
  put_string, put_string_entry, size_string, size_string_entry, put_operator_entry,
  size_operator_entry, put_entry, size_entry, SearchRequest, put_search_request,
  size_search_request,
}

unfoldable pub TagFits : Option ByteContainer → Type 0
TagFits none = Unit
TagFits (some tag) = length tag < 2 ^ 16

-- No paren, and no string that is too long for its length field.
unfoldable pub EntryFits : Entry → Type 0
EntryFits (numeric_entry e) = length e.tag < 2 ^ 16
EntryFits (string_entry e) = (length e.value < 2 ^ 16) × TagFits e.tag
EntryFits (operator_entry o) = Unit
EntryFits (paren_entry c) = ⊥

-- A call that writes `n` bytes, whatever they are, and does not panic.
record WritesSome (p : StateBuffer → Outcome StateBuffer) (n : ℕ) : Type 0 where
  bytes : List ℕ
  put : StateBuffer → StateBuffer
  width : length bytes ≡ n
  returns : (sb : StateBuffer) → p sb ≡ ok (put sb)
  writes : Writes put bytes

number_bytes : ℕ → List ℕ
number_bytes v = if ltb v max_uint32 then le_bytes 4 v else le_bytes 8 v

put_number_ok :
    (v : ℕ)
    → Writes
        (λ sb. if ltb v max_uint32 then write_uint 4 v sb else write_uint 8 v sb)
        (number_bytes v)
unfolding number_bytes
put_number_ok v = elim (Bool-cases (ltb v max_uint32)) [
  | inl e ↦ rw e (Writes-write_uint 4 v)
  | inr e ↦ rw e (Writes-write_uint 8 v)
]

length-number_bytes : (v : ℕ) → length (number_bytes v) ≡ (if ltb v max_uint32 then 4 else 8)
unfolding number_bytes
length-number_bytes v = elim (Bool-cases (ltb v max_uint32)) [
  | inl e ↦ rw e (length-le_bytes 4 v)
  | inr e ↦ rw e (length-le_bytes 8 v)
]

numeric_ok :
    (e : NumericEntry)
    → length e.tag < 2 ^ 16
    → WritesSome (λ sb. ok (put_numeric_entry e sb)) (size_numeric_entry e)
unfolding put_numeric_entry size_numeric_entry
numeric_ok e h = record {
  bytes = number_bytes e.value ++ (le_bytes 1 e.operator ++ byte_container_bytes e.tag);
  put = put_numeric_entry e;
  width = omega (
    arith,
    length-append (number_bytes e.value) (le_bytes 1 e.operator ++ byte_container_bytes e.tag),
    length-append (le_bytes 1 e.operator) (byte_container_bytes e.tag),
    length-number_bytes e.value,
    length-le_bytes 1 e.operator,
    length-byte_container_bytes e.tag,
  );
  returns = λ sb. refl;
  writes = Writes-then (put_number_ok e.value) (
      Writes-then (Writes-write_uint 1 e.operator)
        (Writes-write (Writes-put_byte_container e.tag h)));
}

string_ok :
    (value : ByteContainer) (tag : Option ByteContainer)
    → length value < 2 ^ 16
    → TagFits tag
    → WritesSome (λ sb. ok (put_string value tag sb)) (size_string value tag)
unfolding put_string size_string TagFits
string_ok value none h k = record {
  bytes = le_bytes 1 search_type_str ++ byte_container_bytes value;
  put = put_string value none;
  width = omega (
    arith,
    length-append (le_bytes 1 search_type_str) (byte_container_bytes value),
    length-le_bytes 1 search_type_str,
    length-byte_container_bytes value,
  );
  returns = λ sb. refl;
  writes =
      Writes-then (Writes-write_uint 1 search_type_str)
        (Writes-write (Writes-put_byte_container value h));
}
string_ok value (some tag) h k = record {
  bytes =
      le_bytes 1 search_type_str_tag ++ (byte_container_bytes value ++ byte_container_bytes tag);
  put = put_string value (some tag);
  width = omega (
    arith,
    length-append (le_bytes 1 search_type_str_tag)
        (byte_container_bytes value ++ byte_container_bytes tag),
    length-append (byte_container_bytes value) (byte_container_bytes tag),
    length-le_bytes 1 search_type_str_tag,
    length-byte_container_bytes value,
    length-byte_container_bytes tag,
  );
  returns = λ sb. refl;
  writes = Writes-then (Writes-write_uint 1 search_type_str_tag) (
      Writes-then (Writes-write (Writes-put_byte_container value h))
        (Writes-write (Writes-put_byte_container tag k)));
}

operator_ok : (o : ℕ) → WritesSome (λ sb. ok (put_operator_entry o sb)) size_operator_entry
unfolding put_operator_entry
operator_ok o = record {
  bytes = le_bytes 1 search_type_bool ++ le_bytes 1 0;
  put = put_operator_entry o;
  width = omega (
    arith,
    length-append (le_bytes 1 search_type_bool) (le_bytes 1 0),
    length-le_bytes 1 search_type_bool,
    length-le_bytes 1 0,
  );
  returns = λ sb. refl;
  writes = Writes-then (Writes-write_uint 1 search_type_bool) (Writes-write_uint 1 0);
}

-- The size of an entry is what it writes.
entry_ok : (e : Entry) → EntryFits e → (n : ℕ) × (size_entry e ≡ ok n) × WritesSome (put_entry e) n
unfolding EntryFits size_entry put_entry put_string_entry size_string_entry
entry_ok (numeric_entry e) h = (size_numeric_entry e, refl, numeric_ok e h)
entry_ok (string_entry e) h = (size_string_entry e, refl, string_ok e.value e.tag h.0 h.1)
entry_ok (operator_entry o) h = (size_operator_entry, refl, operator_ok o)
entry_ok (paren_entry c) h = absurd h

request_ok :
    (sr : SearchRequest)
    → All EntryFits sr
    → (n : ℕ) × (size_search_request sr ≡ ok n) × WritesSome (put_search_request sr) n
unfolding size_search_request put_search_request
request_ok [] h = (
  0,
  refl,
  record { bytes = []; put = λ sb. sb; width = refl; returns = λ sb. refl; writes = Writes-none },
)
request_ok (s ∷ rest) h =
    let (n, size, first) = entry_ok s h.0 in
    let (m, size_rest, others) = request_ok rest h.1 in
    (
      n + m,
      rw (size, size_rest) refl,
      record {
        bytes = first.bytes ++ others.bytes;
        put = λ sb. others.put (first.put sb);
        width = omega (arith, length-append first.bytes others.bytes, first.width, others.width);
        returns = λ sb. rw (first.returns sb) (others.returns (first.put sb));
        writes = Writes-then first.writes others.writes;
      },
    )

-- A request without parens whose strings are shorter than 65536 bytes has a `Size`, and `Put` fills a
-- buffer of that size to the end, without an error.
pub put_search_request_ok :
    (sr : SearchRequest)
    → All EntryFits sr
    → (n : ℕ) × (size_search_request sr ≡ ok n)
      × ((bytes : List ℕ) × (length bytes ≡ n)
          × (put_search_request sr (make_buffer n)
              ≡ ok (record { bytes = bytes; err = none; pos = n })))
put_search_request_ok sr h =
    let (n, size, some_bytes) = request_ok sr h in
    (
      n,
      size,
      (
        some_bytes.bytes,
        some_bytes.width,
        rw (some_bytes.returns (make_buffer n))
            (rw some_bytes.width at (ap ok (Writes-fresh some_bytes.writes))),
      ),
    )
