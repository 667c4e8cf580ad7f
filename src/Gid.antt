-- ===== src/Gid.antt =====
-- lib/core/src/gid.c and gid.h: the global id of a page, 40 bits of file id under 24 bits of page
-- number in one 64-bit word, and the name of a file. The bytes of the word lie with the low one
-- first, as the comment of the union demands.
mod Examples
use scroller.Prelude.{
  ℕ, zero, suc, ◌+◌, ◌-◌, ◌*◌, ◌/◌, ◌%◌, ◌^◌, ◌<◌, ◌≡◌, ◌↔◌, refl, ◌∙◌, ap, sym, List, [], ◌∷◌,
  length, Option, none, some, ltb, leb, ◌&&◌, ◌==◌, if◌then◌else◌, arith,
}

-- `GID_FILEIDBITS`, `GID_PAGEBITS`, `GID_OCTETBITS`
abbrev pub file_id_bits : ℕ
file_id_bits = 40

abbrev pub page_bits : ℕ
page_bits = 24

abbrev pub octet_bits : ℕ
octet_bits = 8

-- `GID_MAXPAGE`
abbrev pub max_page : ℕ
max_page = 0xFFFFFF

-- `GID_UNDEF`
abbrev pub undef : ℕ
undef = 0

-- `gid.parts.file_id` and `gid.parts.page` of a word.
abbrev pub file_id : ℕ → ℕ
file_id gid = gid % 2 ^ file_id_bits

abbrev pub page : ℕ → ℕ
page gid = gid / 2 ^ file_id_bits % 2 ^ page_bits

-- `(Gid) { .parts = { .file_id = f, .page = p } }`, which cuts both to their bits.
abbrev pub gid_of : ℕ → ℕ → ℕ
gid_of f p = f % 2 ^ file_id_bits + 2 ^ file_id_bits * (p % 2 ^ page_bits)

unfoldable pub char2hex : ℕ → ℕ
char2hex c = let d = c % 16 in if ltb 9 d then b'A' + d - 10 else b'0' + d

-- The loop from byte `i - 1` down.
unfoldable pub hex_loop : ℕ → ℕ → List ℕ
hex_loop zero gid = []
hex_loop (suc i) gid =
    let c = gid / 2 ^ (octet_bits * i) % 256 in char2hex (c / 16) ∷ char2hex c ∷ hex_loop i gid

-- The characters in front of the terminating zero.
unfoldable pub gid2hex : ℕ → List ℕ
unfolding hex_loop
gid2hex gid = hex_loop (file_id_bits / octet_bits) gid

-- The number that hexadecimal digits write, `acc` being that of those in front.
unfoldable pub parse_hex : ℕ → List ℕ → Option ℕ
parse_hex acc [] = some acc
parse_hex acc (c ∷ cs) =
    let decimal = parse_hex (16 * acc + (c - b'0')) cs in
    let letter = parse_hex (16 * acc + (c - b'A' + 10)) cs in
    if leb b'0' c && leb c b'9' then decimal else if leb b'A' c && leb c b'F' then letter else none

parse_hex-char2hex :
    (acc c : ℕ) (cs : List ℕ) → parse_hex acc (char2hex c ∷ cs) ≡ parse_hex (16 * acc + c % 16) cs
unfolding parse_hex char2hex
parse_hex-char2hex acc c cs = ground arith

parse_hex_byte :
    (acc c : ℕ) (cs : List ℕ)
    → c < 256
    → parse_hex acc (char2hex (c / 16) ∷ char2hex c ∷ cs) ≡ parse_hex (256 * acc + c) cs
parse_hex_byte acc c cs h =
    parse_hex-char2hex acc (c / 16) (char2hex c ∷ cs)
    ∙ parse_hex-char2hex (16 * acc + c / 16 % 16) c cs
    ∙ ap (λ n. parse_hex n cs) (omega arith)

parse_hex_end : (a b : ℕ) → a ≡ b → parse_hex a [] ≡ some b
unfolding parse_hex
parse_hex_end a b e = ap some e

parse_hex-gid2hex : (gid : ℕ) → parse_hex 0 (gid2hex gid) ≡ some (file_id gid)
unfolding gid2hex
parse_hex-gid2hex gid =
    parse_hex_byte 0 (gid / 2 ^ 32 % 256) _ (omega arith)
    ∙ parse_hex_byte _ (gid / 2 ^ 24 % 256) _ (omega arith)
    ∙ parse_hex_byte _ (gid / 2 ^ 16 % 256) _ (omega arith)
    ∙ parse_hex_byte _ (gid / 2 ^ 8 % 256) _ (omega arith)
    ∙ parse_hex_byte _ (gid / 1 % 256) [] (omega arith)
    ∙ parse_hex_end _ (file_id gid) (omega arith)

same_bytes :
    (gid other : ℕ)
    → file_id gid ≡ file_id other
    → (i : ℕ) → i < 5
    → gid / 2 ^ (8 * i) % 256 ≡ other / 2 ^ (8 * i) % 256
same_bytes gid other e zero h = omega arith
same_bytes gid other e (suc zero) h = omega arith
same_bytes gid other e (suc (suc zero)) h = omega arith
same_bytes gid other e (suc (suc (suc zero))) h = omega arith
same_bytes gid other e (suc (suc (suc (suc zero)))) h = omega arith
same_bytes gid other e (suc (suc (suc (suc (suc i))))) h = absurd (omega arith)

hex_loop_same :
    (n gid other : ℕ) → n < 6 → file_id gid ≡ file_id other → hex_loop n gid ≡ hex_loop n other
unfolding hex_loop
hex_loop_same zero gid other h e = refl
hex_loop_same (suc i) gid other h e =
    rw (same_bytes gid other e i (omega arith), hex_loop_same i gid other (omega arith) e) refl

-- The name that `gid2hex` makes has ten characters and is the file id in hexadecimal digits. So
-- two pages have the same name of a file exactly if they have the same file id.
pub gid2hex-file_id :
    (gid other : ℕ)
    → (parse_hex 0 (gid2hex gid) ≡ some (file_id gid))
      × (length (gid2hex gid) ≡ 10)
      × ((gid2hex gid ≡ gid2hex other) ↔ (file_id gid ≡ file_id other))
unfolding gid2hex
gid2hex-file_id gid other = (
  parse_hex-gid2hex gid,
  refl,
  (
    λ e. some_inj (sym (parse_hex-gid2hex gid) ∙ ap (parse_hex 0) e ∙ parse_hex-gid2hex other),
    hex_loop_same 5 gid other (omega arith),
  ),
)
  where
    some_inj : {a b : ℕ} → some a ≡ some b → a ≡ b
    some_inj e = cc

-- The parts of a word that is put together from a file id and a page are the two, cut to 40 and 24
-- bits, and a word of 64 bits is what its parts are put together to.
pub gid_of-parts :
    (f p gid : ℕ)
    → gid < 2 ^ 64
    → (file_id (gid_of f p) ≡ f % 2 ^ 40)
      × (page (gid_of f p) ≡ p % 2 ^ 24)
      × (gid_of (file_id gid) (page gid) ≡ gid)
gid_of-parts f p gid h = (omega arith, omega arith, omega arith)
