-- ===== src/Sessions/Greeting.antt =====
-- session.go: the answer to a hello, from the configuration of config.go.
use ged2k.Prelude.{ℕ, ◌*◌, ◌%◌, ◌^◌, ◌<◌, ◌≡◌, refl, bit_or, none, List, [], ◌∷◌, length, arith}
use ged2k.Prelude.Int.{pos}
use ged2k.Proto.Buffer.{make_buffer, reread}
use ged2k.Proto.Basic.{Ed2kHash}
use ged2k.Proto.Basic.RoundTrip.{IsHash}
use ged2k.Proto.Tag.{class}
use ged2k.Proto.Tag.Valid.{TagIsValid, fixed_size}
use ged2k.Proto.Tag.Create.{create_tag, uint32, string, create_tag-TagIsValid}
use ged2k.Proto.Options.{as_options, set_captcha, set_large_files, set_source_ext2}
use ged2k.Proto.Packets.{HelloAnswer, get_hello_answer, put_hello_answer, size_hello_answer}
use ged2k.Proto.Packets.RoundTrip.{
  empty_hello_answer, hello_answer_bytes, get_hello_answer-put_hello_answer,
}

pub record Config : Type 0 where
  pub listen_port : ℕ
  pub user_agent : Ed2kHash
  pub client_name : List ℕ
  pub mod_name : List ℕ
  pub app_version : ℕ
  pub mod_major_version : ℕ
  pub mod_minor_version : ℕ
  pub mod_build_version : ℕ

-- The shifts are on uint32.
unfoldable pub make_full_version : ℕ → ℕ → ℕ → ℕ → ℕ
make_full_version client_id a b c =
    bit_or
      (bit_or (bit_or (client_id * 2 ^ 24 % 2 ^ 32) (a * 2 ^ 17 % 2 ^ 32)) (b * 2 ^ 10 % 2 ^ 32))
      (c * 2 ^ 7 % 2 ^ 32)

abbrev so_amule : ℕ
so_amule = 3

-- The first options: names in Unicode, packed data, and no list of shared files.
abbrev first_options : ℕ
first_options = as_options (record {
  aich_version = 0;
  unicode_support = 1;
  udp_ver = 0;
  data_comp_ver = 1;
  support_sec_ident = 0;
  source_exchange1_ver = 0;
  extended_requests_ver = 0;
  accept_comment_ver = 0;
  no_view_shared_files = 1;
  multi_packet = 0;
  supports_preview = 0;
})

abbrev second_options : ℕ
second_options = set_source_ext2 (set_large_files (set_captcha 0))

-- `client_id` is the ClientId of the session.
unfoldable pub create_hello_answer : Config → ℕ → HelloAnswer
create_hello_answer config client_id =
    let version =
      make_full_version so_amule config.mod_major_version config.mod_minor_version
        config.mod_build_version in
    record {
      hash = config.user_agent;
      point = record { ip = client_id; port = config.listen_port };
      properties =
          create_tag (string config.client_name) 0x01 []
          ∷ create_tag (string config.mod_name) 0x55 []
          ∷ create_tag (uint32 config.app_version) 0x11 []
          ∷ create_tag (uint32 0) 0xf9 []
          ∷ create_tag (uint32 version) 0xfb []
          ∷ create_tag (uint32 first_options) 0xfa []
          ∷ create_tag (uint32 second_options) 0xfe []
          ∷ [];
      server_point = record { ip = 0; port = 0 };
    }

-- The types of the fields bound the numbers; the names must be short.
pub record ConfigIsValid (config : Config) : Type 0 where
  pub agent_fits : IsHash config.user_agent
  pub port_fits : config.listen_port < 2 ^ 16
  pub client_fits : length config.client_name < 2 ^ 16
  pub mod_fits : length config.mod_name < 2 ^ 16

uint32_tag-TagIsValid : (v id : ℕ) → id < 2 ^ 8 → TagIsValid (create_tag (uint32 v) id [])
unfolding create_tag class fixed_size
uint32_tag-TagIsValid v id h = record { type_fits = omega arith; key_fits = h; value_fits = refl }

-- The answer to a hello that the session makes from a configuration with names below 65536 bytes and
-- from a client id of 32 bits has a `Size`. Written to a buffer of that size, it is read back as it
-- was, without an error and to the end.
pub get_hello_answer-create_hello_answer :
    (config : Config) (client_id : ℕ)
    → ConfigIsValid config
    → client_id < 2 ^ 32
    → (n : ℕ) × (size_hello_answer (create_hello_answer config client_id) ≡ pos n)
      × (get_hello_answer empty_hello_answer
            (reread (put_hello_answer (create_hello_answer config client_id) (make_buffer n)))
          ≡ (
            create_hello_answer config client_id,
            record {
              bytes = hello_answer_bytes (create_hello_answer config client_id);
              err = none;
              pos = n;
            },
          ))
get_hello_answer-create_hello_answer config client_id v h =
    get_hello_answer-put_hello_answer (create_hello_answer config client_id) (
      unfold create_hello_answer in
      record {
        hash_fits = v.agent_fits;
        point_fits = record { ip_fits = h; port_fits = v.port_fits };
        properties_fit = record {
          few = omega arith;
          each = (
            create_tag-TagIsValid (string config.client_name) 0x01 [] v.client_fits (omega arith),
            (
              create_tag-TagIsValid (string config.mod_name) 0x55 [] v.mod_fits (omega arith),
              (
                uint32_tag-TagIsValid _ 0x11 (omega arith),
                (
                  uint32_tag-TagIsValid _ 0xf9 (omega arith),
                  (
                    uint32_tag-TagIsValid _ 0xfb (omega arith),
                    (
                      uint32_tag-TagIsValid _ 0xfa (omega arith),
                      (uint32_tag-TagIsValid _ 0xfe (omega arith), tt),
                    ),
                  ),
                ),
              ),
            ),
          );
        };
        server_point_fits = record { ip_fits = omega arith; port_fits = omega arith };
      })
