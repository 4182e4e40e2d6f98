-- ===== src/Settings/Examples.antt =====
-- Runs of haven/config.py on a small file.
use haven_e2e_messenger.Prelude.{◌≡◌, refl, none, some, List, [], ◌∷◌, text, bytes_dec}
use haven_e2e_messenger.Prelude.Dict.{keys, insert, erase, lookup}
use haven_e2e_messenger.Settings.{
  ConfigFile, holds, load, relay_key, list_relays, add_relay, remove_relay,
}
use haven_e2e_messenger.Settings.Relays.{
  Change, adds, removes, lists, changes, dict_changes, relays_are_a_dict,
}

abbrev old_file : ConfigFile
old_file = holds (record {
  relays = none;
  relay_host = some (text "a.org");
  relay_port = some 9400;
  others = (text "ai_model", text "small") ∷ [];
})

abbrev day : List Change
day = adds [] (text "b.org") 70 ∷ removes (text "a.org:9400") ∷ lists ∷ []

old_address_is_listed : keys (list_relays old_file).0 ≡ text "a.org:9400" ∷ []
unfolding list_relays relay_key insert lookup
old_address_is_listed = refl

day_runs : keys (list_relays (changes day old_file)).0 ≡ text "b.org:70" ∷ []
unfolding list_relays relay_key insert erase add_relay remove_relay bytes_dec lookup
day_runs = refl

relays_are_a_dict_example :
    ((list_relays (changes day old_file)).0 ≡ dict_changes day (list_relays old_file).0)
    × ((load (changes day old_file)).others ≡ (text "ai_model", text "small") ∷ [])
unfolding lookup
relays_are_a_dict_example = relays_are_a_dict day old_file refl
