-- ===== src/Host/Input/Dispatch/Mouse.antt =====
-- electron/services/RemoteInputService.ts: where the mouse is sent.
use lantern_remote.Common.{◌≡◌, refl, some}
use lantern_remote.Value.{Number, Value}
use lantern_remote.Shared.RemoteInput.{mouse_move, RemoteInputRequest, parse_remote_input_request}
use lantern_remote.Shared.RemoteInput.Validity.{parse_request_sound}
use lantern_remote.Shared.RemoteInput.Geometry.{Doubles, denormalize}
use lantern_remote.Shared.RemoteInput.Pixels.{IsIeee, IsPixel, denormalize-IsPixel}
use lantern_remote.Host.Input.Adapter.{RemoteInputAdapter}
use lantern_remote.Host.Input.Dispatch.{dispatch}

-- A move that the main process accepts asks the adapter, whichever it is, for one move, to a whole
-- pixel from zero to the display's width and height, ends included, where products of doubles round
-- as IEEE 754 says.
pub dispatch_move :
    (f : Doubles)
    → IsIeee f
    → (adapter : RemoteInputAdapter) (raw : Value) (r : RemoteInputRequest) (x y : Number)
    → parse_remote_input_request raw ≡ some r
    → r.message ≡ mouse_move x y
    → (px : Number) × (py : Number) × (dispatch f adapter raw ≡ some (adapter.move_mouse px py))
      × IsPixel px r.display_width
      × IsPixel py r.display_height
unfolding dispatch
dispatch_move f v adapter raw r x y h e =
    let (_, w, k) = parse_request_sound raw r h in
    (
      denormalize f r.display_width x,
      denormalize f r.display_height y,
      rw (h, e) refl,
      denormalize-IsPixel f v r.display_width x w,
      denormalize-IsPixel f v r.display_height y k,
    )
