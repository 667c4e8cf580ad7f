-- ===== src/Gid/Examples.antt =====
-- Names of files, and the theorem at one of them.
use scroller.Prelude.{◌≡◌, ◌↔◌, refl, some, [], ◌∷◌, length}
use scroller.Gid.{file_id, gid_of, char2hex, hex_loop, gid2hex, parse_hex, gid2hex-file_id}

run_hex :
    gid2hex (gid_of 0xBEEF 3)
    ≡ b'0' ∷ b'0' ∷ b'0' ∷ b'0' ∷ b'0' ∷ b'0' ∷ b'B' ∷ b'E' ∷ b'E' ∷ b'F' ∷ []
unfolding gid2hex hex_loop char2hex
run_hex = refl

gid2hex-file_id_example :
    (parse_hex 0 (gid2hex (gid_of 0xBEEF 3)) ≡ some 0xBEEF)
    × (length (gid2hex (gid_of 0xBEEF 3)) ≡ 10)
    × ((gid2hex (gid_of 0xBEEF 3) ≡ gid2hex (gid_of 0xBEEF 4))
        ↔ (0xBEEF ≡ file_id (gid_of 0xBEEF 4)))
gid2hex-file_id_example = gid2hex-file_id (gid_of 0xBEEF 3) (gid_of 0xBEEF 4)
