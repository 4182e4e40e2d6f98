-- ===== src/Settings.antt =====
-- haven/config.py: the settings file of an account.
pub mod Relays
mod Examples
use haven_e2e_messenger.Prelude.{
  text, ℕ, zero, suc, ◌+◌, ◌/◌, ◌%◌, Str, Bool, true, false, Option, none, some, List, [], ◌∷◌,
  ◌++◌, bytes_eq, ltb, if◌then◌else◌,
}
use haven_e2e_messenger.Prelude.Decimal.{decimal}
use haven_e2e_messenger.Prelude.Dict.{Dict, has_key, insert, erase}

pub record Relay : Type 0 where
  pub name : Str
  pub host : Str
  pub port : ℕ

-- The settings. A null address stands as a missing one, for `get` gives None for either; `relays` is never
-- null. The values of other settings are kept as texts.
pub record Config : Type 0 where
  pub relays : Option (Dict Str Relay)
  pub relay_host : Option Str
  pub relay_port : Option ℕ
  pub others : Dict Str Str

-- config.json; `unreadable` is a file whose reading raises OSError or JSONDecodeError.
pub data ConfigFile : Type 0 where
  missing : ConfigFile
  unreadable : ConfigFile
  holds : Config → ConfigFile

abbrev pub no_config : Config
no_config = record { relays = none; relay_host = none; relay_port = none; others = [] }

abbrev pub load : ConfigFile → Config
load missing = no_config
load unreadable = no_config
load (holds cfg) = cfg

-- An item of `updates`.
pub data Setting : Type 0 where
  relays_setting : Dict Str Relay → Setting
  host_setting : Option Str → Setting
  port_setting : Option ℕ → Setting
  other_setting : Str → Str → Setting

abbrev pub set_one : Config → Setting → Config
set_one cfg (relays_setting d) = record cfg { relays = some d }
set_one cfg (host_setting host) = record cfg { relay_host = host }
set_one cfg (port_setting port) = record cfg { relay_port = port }
set_one cfg (other_setting key value) = record cfg { others = insert key value cfg.others }

-- `cfg.update(updates)`
abbrev pub set_all : Config → List Setting → Config
set_all cfg [] = cfg
set_all cfg (item ∷ items) = set_all (set_one cfg item) items

abbrev pub save : List Setting → ConfigFile → ConfigFile
save updates file = holds (set_all (load file) updates)

unfoldable pub relay_key : Str → ℕ → Str
unfolding decimal
relay_key host port = host ++ (58 ∷ decimal port)

abbrev pub relays_of : Option (Dict Str Relay) → Dict Str Relay
relays_of none = []
relays_of (some d) = d

-- The address of the time when there was one relay: both settings are there and neither is empty or zero.
abbrev pub legacy_address : Option Str → Option ℕ → Option (Str × ℕ)
legacy_address (some (c ∷ host)) (some (suc port)) = some (c ∷ host, suc port)
legacy_address _ _ = none

abbrev pub default_relay : Str → ℕ → Relay
default_relay host port = record { name = text "Default relay"; host = host; port = port }

-- `list_relays` after its reading of the settings.
abbrev pub migrate : Option (Str × ℕ) → Dict Str Relay → ConfigFile → Dict Str Relay × ConfigFile
migrate none relays file = (relays, file)
migrate (some (host, port)) relays file =
    let key = relay_key host port in
    let added = insert key (default_relay host port) relays in
    if has_key key relays
    then (relays, file)
    else (added, save (relays_setting added ∷ host_setting none ∷ port_setting none ∷ []) file)

unfoldable pub list_relays : ConfigFile → Dict Str Relay × ConfigFile
list_relays file =
    let cfg = load file in
    migrate (legacy_address cfg.relay_host cfg.relay_port) (relays_of cfg.relays) file

-- `name or key`
abbrev pub name_or : Str → Str → Str
name_or [] key = key
name_or (c ∷ name) key = c ∷ name

unfoldable pub add_relay : Str → Str → ℕ → ConfigFile → Str × ConfigFile
add_relay name host port file =
    let (relays, file) = list_relays file in
    let key = relay_key host port in
    let relay : Relay = record { name = name_or name key; host = host; port = port } in
    (key, save (relays_setting (insert key relay relays) ∷ []) file)

unfoldable pub remove_relay : Str → ConfigFile → ConfigFile
remove_relay key file =
    let (relays, file) = list_relays file in save (relays_setting (erase key relays) ∷ []) file
