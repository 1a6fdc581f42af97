-- ===== src/Shared/Signaling/Accepts.antt =====
-- What the validators guarantee of the payloads that they let through.
use lantern_remote.Common.{
  [], ◌∷◌, refl, arith, ◌>>=◌, ◌≡◌, some, Text, length, >>=-eq-some, present-eq_some, present, true,
}
use lantern_remote.Value.{object, Value}
use lantern_remote.Shared.DeviceId.{parse_device_id}
use lantern_remote.Shared.DeviceId.RoundTrip.{parse_device_id_sound, parse-parse}
use lantern_remote.Shared.Signaling.{
  parse_register_device_payload, as_record, read_string, parse_connection_request_payload,
  ConnectionRequestPayload, is_valid_token_format, string, object,
}

-- A registration is for an id of nine digits.
pub length-parse_register :
    (value : Value) (d : Text) → parse_register_device_payload value ≡ some d → length d ≡ 9
unfolding parse_register_device_payload
length-parse_register value d h =
    let (fs, _, g) =
      >>=-eq-some (as_record value)
        (λ fs. present (read_string fs "deviceId") >>= (λ raw. present (parse_device_id raw))) h in
    let (raw, _, e) =
      >>=-eq-some (present (read_string fs "deviceId")) (λ raw. present (parse_device_id raw)) g in
    (parse_device_id_sound raw d (present-eq_some (parse_device_id raw) d e).0).0

-- A registered id parses to itself.
pub parse_register_self :
    (value : Value) (d : Text)
    → parse_register_device_payload value ≡ some d
    → parse_device_id d ≡ some d
unfolding parse_register_device_payload
parse_register_self value d h =
    let (fs, _, g) =
      >>=-eq-some (as_record value)
        (λ fs. present (read_string fs "deviceId") >>= (λ raw. present (parse_device_id raw))) h in
    let (raw, _, e) =
      >>=-eq-some (present (read_string fs "deviceId")) (λ raw. present (parse_device_id raw)) g in
    parse-parse raw d (present-eq_some (parse_device_id raw) d e).0

-- The code of a connection request has the format of a code.
pub is_valid-token :
    (value : Value) (p : ConnectionRequestPayload)
    → parse_connection_request_payload value ≡ some p
    → is_valid_token_format (string p.token) ≡ true
unfolding parse_connection_request_payload
is_valid-token (object fs) p h = ground arith
is_valid-token _ p h = absurd (cc)

-- An id that parses to itself is not empty.
pub present-parse : (d : Text) → parse_device_id d ≡ some d → present (parse_device_id d) ≡ some d
present-parse [] h = absurd (omega (arith, (parse_device_id_sound [] [] h).0))
present-parse (c ∷ d) h = rw h refl
