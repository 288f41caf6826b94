-- ===== src/Maintenance/Service/Replies.antt =====
-- The board ID that `get_board_id` accepts.
use mathlib.Core.Bool.{false≢true}
use antsdr_dfone.Prelude.{
  ◌≡◌, refl, true, [], ◌∷◌, Option, some, none, arith, inl, inr, Bool-cases, Bytes, codes,
}
use antsdr_dfone.Net.{Socket}
use antsdr_dfone.Maintenance.Text.{
  Values, find, bytes_eq, parse_key_value_text, normalize_hex_copy, is_fixed_hex,
}
use antsdr_dfone.Maintenance.Text.Hex.{normalize_hex_copy_lem}
use antsdr_dfone.Maintenance.Service.{fails, gives}
use antsdr_dfone.Maintenance.Service.Requests.{
  max_firmware_response_bytes, board_id_hex_length, Maintenance, Resolver, Exchange, request, Reply,
  check_board_id, board_id_values, end_board_id, get_board_id, value_or_empty,
}

-- A board ID that was accepted.
pub record IsBoardId (r : Reply Bytes) : Type 0 where
  pub fixed_hex : is_fixed_hex r.out board_id_hex_length ≡ true
  pub lower_case : normalize_hex_copy r.out ≡ r.out
  pub no_failure : r.object.last_error ≡ []

check_board_id-IsBoardId :
    (m : Maintenance) (text : Bytes) (s : Option Socket)
    → (check_board_id m (normalize_hex_copy text) s).done ≡ true
    → IsBoardId (check_board_id m (normalize_hex_copy text) s)
unfolding check_board_id
check_board_id-IsBoardId m text s d =
    elim (Bool-cases (is_fixed_hex (normalize_hex_copy text) board_id_hex_length)) [
      | inl t ↦ rw t (record {
        fixed_hex = t;
        lower_case = (normalize_hex_copy_lem text).1;
        no_failure = refl;
      })
      | inr t ↦ absurd (ground arith)
    ]

board_id_values-IsBoardId :
    (m : Maintenance) (old : Bytes) (s : Option Socket) (o : Option Values)
    → (board_id_values m old s o).done ≡ true
    → IsBoardId (board_id_values m old s o)
board_id_values-IsBoardId m old s none d = absurd (false≢true d)
board_id_values-IsBoardId m old s (some values) d =
    elim (Bool-cases
      (bytes_eq (value_or_empty (find (codes "format") values)) (codes "dfone-board-id-v1"))) [
        | inl t ↦ rw t (
            check_board_id-IsBoardId m (value_or_empty (find (codes "board_id") values)) s
              (ground arith))
        | inr t ↦ absurd (ground arith)
      ]

end_board_id-IsBoardId :
    (m : Maintenance) (old : Bytes) (e : Exchange)
    → (end_board_id m old e).done ≡ true
    → IsBoardId (end_board_id m old e)
unfolding end_board_id
end_board_id-IsBoardId m old (fails e, s) d = absurd (false≢true d)
end_board_id-IsBoardId m old (gives output, s) d =
    board_id_values-IsBoardId m old s (parse_key_value_text output) d

-- When `get_board_id` answers true, the board ID is 32 hexadecimal digits in lower case, and
-- `last_error` is empty.
pub get_board_id-IsBoardId :
    (r : Resolver) (m : Maintenance) (old : Bytes)
    → (get_board_id r m old).done ≡ true
    → IsBoardId (get_board_id r m old)
unfolding get_board_id
get_board_id-IsBoardId r m old d =
    end_board_id-IsBoardId m old
      (request r m (codes "GET_BOARD_ID\n" ∷ []) max_firmware_response_bytes (codes "board ID")) d
