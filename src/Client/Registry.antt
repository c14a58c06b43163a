-- ===== src/Client/Registry.antt =====
-- src/client/registry.cpp: the globals that a compositor announces. The objects that a client
-- creates for them are not here.
pub mod Present
pub mod Removal
use greenisland.Common.{
  ℕ, String, refl, Bool, true, false, Option, none, some, List, [], ◌∷◌, ◌++◌, arith, ◌==◌,
  if◌then◌else◌, str_eq,
}

-- `Registry::Interface`.
pub data Interface : Type 0 where
  unknown_interface compositor_interface fullscreen_shell_interface output_interface : Interface
  output_management_interface screencaster_interface screenshooter_interface : Interface
  seat_interface shm_interface : Interface

unfoldable pub name_to_interface : String → Interface
name_to_interface s =
    if str_eq s "wl_compositor"
    then compositor_interface
    else if str_eq s "zwp_fullscreen_shell_v1"
    then fullscreen_shell_interface
    else if str_eq s "wl_output"
    then output_interface
    else if str_eq s "greenisland_outputmanagement"
    then output_management_interface
    else if str_eq s "greenisland_screencaster"
    then screencaster_interface
    else if str_eq s "greenisland_screenshooter"
    then screenshooter_interface
    else if str_eq s "wl_seat"
    then seat_interface
    else if str_eq s "wl_shm"
    then shm_interface
    else unknown_interface

-- The interface that is bound, by its name; none for an unknown one.
unfoldable pub wl_interface : Interface → Option String
wl_interface compositor_interface = some "wl_compositor"
wl_interface output_interface = some "wl_output"
wl_interface fullscreen_shell_interface = some "zwp_fullscreen_shell_v1"
wl_interface output_management_interface = some "greenisland_outputmanagement"
wl_interface screencaster_interface = some "greenisland_screencaster"
wl_interface screenshooter_interface = some "greenisland_screenshooter"
wl_interface seat_interface = some "wl_seat"
wl_interface shm_interface = some "wl_shm"
wl_interface unknown_interface = none

pub record InterfaceInfo : Type 0 where
  pub interface : Interface
  pub name : ℕ
  pub version : ℕ

-- The signals; `announced` and `removed` stand for one signal of each known interface.
pub data Signal : Type 0 where
  interface_announced : String → ℕ → ℕ → Signal
  announced : Interface → ℕ → ℕ → Signal
  removed : Interface → ℕ → Signal
  interface_removed : ℕ → Signal
  interfaces_removed interfaces_announced : Signal

-- `RegistryPrivate`: `callback` says whether the callback of the synchronization is there.
pub record Registry : Type 0 where
  pub interfaces : List InterfaceInfo
  pub callback : Bool
  pub signals : List Signal

unfoldable pub create : Registry
create = record { interfaces = []; callback = true; signals = [] }

abbrev pub is_known : Interface → Bool
is_known unknown_interface = false
is_known _ = true

abbrev pub emit : Signal → Registry → Registry
emit e s = record s { signals = s.signals ++ e ∷ [] }

unfoldable pub handle_announce : String → ℕ → ℕ → Registry → Registry
handle_announce interface name version s =
    let i = name_to_interface interface in
    let t = emit (interface_announced interface name version) s in
    let info : InterfaceInfo = record { interface = i; name = name; version = version } in
    let u = record t { interfaces = t.interfaces ++ info ∷ [] } in
    if is_known i then emit (announced i name version) u else u

-- The first entry with a name, and the list without it.
abbrev pub find_info : ℕ → List InterfaceInfo → Option InterfaceInfo
find_info n [] = none
find_info n (i ∷ is) = if i.name == n then some i else find_info n is

abbrev pub erase_info : ℕ → List InterfaceInfo → List InterfaceInfo
erase_info n [] = []
erase_info n (i ∷ is) = if i.name == n then is else i ∷ erase_info n is

abbrev pub is_empty_list : List InterfaceInfo → Bool
is_empty_list [] = true
is_empty_list (_ ∷ _) = false

-- The loop of `handleRemove`.
unfoldable pub remove_first : ℕ → Registry → Registry
remove_first n s = elim (find_info n s.interfaces) [
  | none ↦ s
  | some i ↦
      let t = record s { interfaces = erase_info n s.interfaces } in
      if is_known i.interface then emit (removed i.interface n) t else t
]

unfoldable pub handle_remove : ℕ → Registry → Registry
unfolding remove_first
handle_remove n s =
    let t = emit (interface_removed n) (remove_first n s) in
    if is_empty_list t.interfaces then emit interfaces_removed t else t

-- The end of the synchronization, which destroys the callback.
unfoldable pub handle_sync : Registry → Registry
handle_sync s = record (emit interfaces_announced s) { callback = false }

-- The values of the enumeration.
abbrev pub value : Interface → ℕ
value unknown_interface = 0
value compositor_interface = 1
value fullscreen_shell_interface = 2
value output_interface = 3
value output_management_interface = 4
value screencaster_interface = 5
value screenshooter_interface = 6
value seat_interface = 7
value shm_interface = 8

-- `bind`: the name, the interface and the version that the registry is asked for.
unfoldable pub bind : Interface → List InterfaceInfo → Option (ℕ × Option String × ℕ)
bind i [] = none
bind i (x ∷ xs) =
    if value x.interface == value i then some (x.name, wl_interface i, x.version) else bind i xs

pub data Event : Type 0 where
  global_announce : ℕ → String → ℕ → Event
  global_remove : ℕ → Event
  global_sync : Event

unfoldable pub handle : Event → Registry → Registry
unfolding handle_announce handle_remove handle_sync
handle (global_announce name interface version) s = handle_announce interface name version s
handle (global_remove name) s = handle_remove name s
handle global_sync s = handle_sync s

unfoldable pub handle_all : List Event → Registry → Registry
unfolding handle
handle_all [] s = s
handle_all (e ∷ es) s = handle_all es (handle e s)
