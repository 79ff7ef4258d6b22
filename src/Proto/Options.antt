-- ===== src/Proto/Options.antt =====
-- proto/peer.go: the options that peers announce, packed in numbers of 32 bits.
use ged2k.Prelude.{ℕ, ◌*◌, ◌/◌, ◌%◌, ◌^◌, ◌==◌, Bool, bit_and, bit_or}

pub record MiscOptions : Type 0 where
  pub aich_version : ℕ
  pub unicode_support : ℕ
  pub udp_ver : ℕ
  pub data_comp_ver : ℕ
  pub support_sec_ident : ℕ
  pub source_exchange1_ver : ℕ
  pub extended_requests_ver : ℕ
  pub accept_comment_ver : ℕ
  pub no_view_shared_files : ℕ
  pub multi_packet : ℕ
  pub supports_preview : ℕ

-- `x << n` on uint32.
abbrev shift_left : ℕ → ℕ → ℕ
shift_left x n = x * 2 ^ n % 2 ^ 32

-- `(value >> n) & mask`
abbrev bits_at : ℕ → ℕ → ℕ → ℕ
bits_at value n mask = bit_and (value / 2 ^ n) mask

unfoldable pub as_options : MiscOptions → ℕ
as_options mo = bit_or (shift_left mo.aich_version 29) (
    bit_or (shift_left mo.unicode_support 28) (
      bit_or (shift_left mo.udp_ver 24) (
        bit_or (shift_left mo.data_comp_ver 20) (
          bit_or (shift_left mo.support_sec_ident 16) (
            bit_or (shift_left mo.source_exchange1_ver 12) (
              bit_or (shift_left mo.extended_requests_ver 8) (
                bit_or (shift_left mo.accept_comment_ver 4) (
                  bit_or (shift_left mo.no_view_shared_files 2)
                    (bit_or (shift_left mo.multi_packet 1) mo.supports_preview)))))))))

unfoldable pub assign_options : ℕ → MiscOptions
assign_options value = record {
  aich_version = bits_at value 29 0x07;
  unicode_support = bits_at value 28 0x01;
  udp_ver = bits_at value 24 0x0f;
  data_comp_ver = bits_at value 20 0x0f;
  support_sec_ident = bits_at value 16 0x0f;
  source_exchange1_ver = bits_at value 12 0x0f;
  extended_requests_ver = bits_at value 8 0x0f;
  accept_comment_ver = bits_at value 4 0x0f;
  no_view_shared_files = bits_at value 2 0x01;
  multi_packet = bits_at value 1 0x01;
  supports_preview = bits_at value 0 0x01;
}

-- MiscOptions2 is a uint32.
unfoldable pub supports_captcha : ℕ → Bool
supports_captcha mo = bits_at mo 11 0x01 == 1

unfoldable pub supports_source_ext2 : ℕ → Bool
supports_source_ext2 mo = bits_at mo 10 0x01 == 1

unfoldable pub supports_ext_multipacket : ℕ → Bool
supports_ext_multipacket mo = bits_at mo 5 0x01 == 1

-- The bit means the opposite of the others.
unfoldable pub supports_large_files : ℕ → Bool
supports_large_files mo = bits_at mo 4 0x01 == 0

unfoldable pub set_captcha : ℕ → ℕ
set_captcha mo = bit_or mo (2 ^ 11)

unfoldable pub set_source_ext2 : ℕ → ℕ
set_source_ext2 mo = bit_or mo (2 ^ 10)

unfoldable pub set_ext_multipacket : ℕ → ℕ
set_ext_multipacket mo = bit_or mo (2 ^ 5)

unfoldable pub set_large_files : ℕ → ℕ
set_large_files mo = bit_or mo (2 ^ 4)
