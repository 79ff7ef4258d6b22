-- ===== src/Checks/Packets.antt =====
-- The packets of proto/peer.go and proto/server.go on concrete values.
use ged2k.Prelude.{ℕ, ◌≡◌, refl, List, [], ◌∷◌, replicate, none, arith}
use ged2k.Prelude.Int.{pos}
use ged2k.Proto.Buffer.{make_buffer, reread}
use ged2k.Proto.Basic.{empty_endpoint}
use ged2k.Proto.Tag.{Tag}
use ged2k.Proto.Tag.Create.{string, create_tag, create_tag-TagIsValid}
use ged2k.Proto.Packets.{HelloAnswer, get_hello_answer, put_hello_answer, size_hello_answer}
use ged2k.Proto.Packets.RoundTrip.{
  empty_hello_answer, hello_answer_bytes, get_hello_answer-put_hello_answer,
}

abbrev a_hash : List ℕ
a_hash = replicate 16 7

abbrev name_tag : Tag
name_tag = create_tag (string (103 ∷ 101 ∷ [])) 1 []

abbrev an_answer : HelloAnswer
an_answer = record {
  hash = a_hash;
  point = record { ip = 16777343; port = 4662 };
  properties = name_tag ∷ [];
  server_point = empty_endpoint;
}

get_hello_answer-put_hello_answer_example :
    (n : ℕ) × (size_hello_answer an_answer ≡ pos n)
    × (get_hello_answer empty_hello_answer (reread (put_hello_answer an_answer (make_buffer n)))
        ≡ (an_answer, record { bytes = hello_answer_bytes an_answer; err = none; pos = n }))
get_hello_answer-put_hello_answer_example = get_hello_answer-put_hello_answer an_answer (record {
  hash_fits = refl;
  point_fits = record { ip_fits = omega arith; port_fits = omega arith };
  properties_fit = record {
    few = omega arith;
    each = (create_tag-TagIsValid (string (103 ∷ 101 ∷ [])) 1 [] (omega arith) (omega arith), tt);
  };
  server_point_fits = record { ip_fits = omega arith; port_fits = omega arith };
})
