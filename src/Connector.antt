-- ===== src/Connector.antt =====
-- The modes of the connector: gud_connector_get_modes of backport-4.9/gud_connector.c. What the
-- control transfer returns and how many modes drm_mode_create can make are arguments.
pub mod Modes
use gud.Base.{
  ℕ, zero, suc, ◌*◌, ◌/◌, ◌%◌, Bool, true, false, not, Option, none, some, List, [], ◌∷◌, length,
  ◌==◌, if◌then◌else◌, bit_and,
}
use gud.Kernel.{Errno}
use gud.Wire.{
  DisplayModeReq, decode_mode, mode_flag_user_mask, mode_flag_preferred, connector_max_num_modes,
}

-- A mode as it is added to the connector.
pub record ProbedMode : Type 0 where
  pub timing : DisplayModeReq
  pub preferred : Bool

-- The result of GET_CONNECTOR_MODES: an error, or the bytes that came. They are no more than were
-- asked for.
pub data ModesReply : Type 0 where
  modes_error : Errno → ModesReply
  modes_bytes : List ℕ → ModesReply

abbrev pub mode_size : ℕ
mode_size = 24

unfoldable pub probed_mode : DisplayModeReq → ProbedMode
probed_mode m = record {
  timing = record m { flags = bit_and m.flags mode_flag_user_mask };
  preferred = not (bit_and m.flags mode_flag_preferred == 0);
}

-- The loop over the array, until it ends or drm_mode_create fails.
unfoldable pub read_modes : ℕ → ℕ → List ℕ → List ProbedMode
unfolding probed_mode
read_modes zero available bytes = []
read_modes (suc left) zero bytes = []
read_modes (suc left) (suc available) bytes = elim (decode_mode bytes) [
  | none ↦ []
  | some (m, rest) ↦ probed_mode m ∷ read_modes left available rest
]

-- What becomes of the answer.
unfoldable pub added_modes : ModesReply → ℕ → ℕ × List ProbedMode
unfolding read_modes
added_modes (modes_error e) available = (0, [])
added_modes (modes_bytes bytes) available =
    let modes = read_modes (length bytes / mode_size) available bytes in
    if length bytes % mode_size == 0 then (length modes, modes) else (0, [])

-- The number that is returned, with the modes that were added. The request asks for the size of the
-- array.
unfoldable pub get_modes : Bool → Bool → (ℕ → ModesReply) → ℕ → ℕ × List ProbedMode
unfolding added_modes
get_modes allocated disconnected request available =
    if not allocated
    then (0, [])
    else if disconnected
    then (0, [])
    else added_modes (request (connector_max_num_modes * mode_size)) available
