-- ===== src/Server/Tests/Views.antt =====
-- The registry's answers at one registry that holds a device, deviceRegistry.ts.
use lantern_remote.Common.{◌≡◌, ◌≢◌, refl, [], none, some, arith, Text, text, Text-discrete, ◌∷◌}
use lantern_remote.Dict.{get, put, del}
use lantern_remote.Server.Registry.{register, get_socket, get_device_id, no_devices}
use lantern_remote.Server.Registry.View.{
  View, view, registered_in, unregistered_in, socket_in, device_in, unregister-register,
}
use lantern_remote.Server.Registry.Refine.{
  registers, leaves, after, Visit, latest, holds, registry_refines,
}
use lantern_remote.Common.{List, if◌then◌else◌, ◌==◌}
use lantern_remote.Server.Registry.{unregister_socket}

abbrev tablet : Text
unfolding text
tablet = text "111111111"

abbrev phone : Text
unfolding text
phone = text "222222222"

abbrev laptop : Text
unfolding text
laptop = text "333333333"

abbrev old_socket : Text
unfolding text
old_socket = text "o"

abbrev socket_p : Text
unfolding text
socket_p = text "p"

abbrev socket_l : Text
unfolding text
socket_l = text "l"

-- A tablet and, on another socket, an earlier registration of the phone.
abbrev one_tablet : View
unfolding register
one_tablet = view (register phone old_socket (register tablet (text "t") no_devices).1).1

laptop-named : laptop ≢ []
unfolding text
laptop-named = ground arith

laptop_offline : socket_in laptop one_tablet ≡ none
unfolding socket_in register get_socket get put del text Text-discrete
laptop_offline = refl

socket_unknown : device_in socket_l one_tablet ≡ none
unfolding device_in register get_device_id get put del text Text-discrete
socket_unknown = refl

unregister-register_example :
    unregistered_in socket_l (registered_in laptop socket_l one_tablet) ≡ one_tablet
unregister-register_example =
    unregister-register laptop socket_l one_tablet laptop-named laptop_offline socket_unknown

-- A socket "t" is the tablet's, and every other one is the phone's.
abbrev owner : Text → Text
owner socket = if socket == text "t" then tablet else phone

owner-named : (socket : Text) → owner socket ≢ []
unfolding text
owner-named socket = ground arith

-- The phone has registered again on another socket, and the old one has left, the last visit first.
abbrev visits : List Visit
visits =
    leaves old_socket ∷ (registers socket_p ∷ (registers old_socket ∷ (registers (text "t") ∷ [])))

registry_refines_example :
    let r = after owner owner-named visits in
    (get_socket phone r ≡ latest owner phone visits)
    × (get_device_id socket_p r
        ≡ (if holds owner owner-named socket_p visits then some (owner socket_p) else none))
    × ((register (owner socket_p) socket_p r).0 ≡ (
        if holds owner owner-named socket_p visits
        then none
        else latest owner (owner socket_p) visits))
    × ((unregister_socket socket_p r).0
        ≡ (if holds owner owner-named socket_p visits then some (owner socket_p) else none))
registry_refines_example = registry_refines owner owner-named visits socket_p phone

phone-latest : latest owner phone visits ≡ some socket_p
unfolding text Text-discrete
phone-latest = refl
