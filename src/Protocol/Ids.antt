-- ===== src/Protocol/Ids.antt =====
-- crates/protocol/src/id.rs and lib.rs: the constants of the wire.
use kvmshare.Prelude.{Bool, List, [], leb, ℕ, ◌&&◌, ◌*◌, ◌∷◌}

-- `MAGIC`, the bytes of "KVM1".
abbrev pub magic : List ℕ
magic = b'K' ∷ b'V' ∷ b'M' ∷ b'1' ∷ []

-- Module `types`.
abbrev pub hello_type : ℕ
hello_type = 0x01

abbrev pub welcome_type : ℕ
welcome_type = 0x02

abbrev pub screen_info_type : ℕ
screen_info_type = 0x03

abbrev pub layout_type : ℕ
layout_type = 0x04

abbrev pub control_type : ℕ
control_type = 0x05

abbrev pub enter_type : ℕ
enter_type = 0x10

abbrev pub leave_type : ℕ
leave_type = 0x11

abbrev pub cursor_pos_type : ℕ
cursor_pos_type = 0x14

abbrev pub escape_type : ℕ
escape_type = 0x13

abbrev pub mouse_move_abs_type : ℕ
mouse_move_abs_type = 0x20

abbrev pub mouse_move_rel_type : ℕ
mouse_move_rel_type = 0x21

abbrev pub mouse_button_type : ℕ
mouse_button_type = 0x22

abbrev pub mouse_wheel_type : ℕ
mouse_wheel_type = 0x23

abbrev pub key_type : ℕ
key_type = 0x30

abbrev pub clipboard_type : ℕ
clipboard_type = 0x40

abbrev pub keepalive_type : ℕ
keepalive_type = 0x7e

abbrev pub error_type : ℕ
error_type = 0x7f

-- `flags::KNOWN`.
abbrev pub known_flags : ℕ
known_flags = 0x00

-- `MAX_PAYLOAD`.
abbrev pub max_payload : ℕ
max_payload = 8 * 1024 * 1024

abbrev pub min_protocol : ℕ
min_protocol = 3

abbrev pub max_protocol : ℕ
max_protocol = 3

-- A peer's version is interoperable when it lies in the supported range.
unfoldable pub compatible : ℕ → Bool
compatible peer_version = leb min_protocol peer_version && leb peer_version max_protocol

-- `VERSION`.
abbrev pub protocol_version : ℕ
protocol_version = 3
