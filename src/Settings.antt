-- ===== src/Settings.antt =====
-- packages/engine-core/src/db/repositories/settingsRepo.ts: the table of settings, one value for a key.
use Prim.Native.String.{String}
use text.Mathlib.Text.{◌==◌ as str_eq}
use arkode.Prelude.{◌≡◌, List, Option, some, if◌then◌else◌}
use arkode.Tables.Keyed.{get_value, put_value, get_value-put_value}

abbrev pub Settings : Type 0
Settings = List (String × String)

unfoldable pub get_setting : String → Settings → Option String
unfolding get_value
get_setting key rows = get_value key rows

unfoldable pub set_setting : String → String → Settings → Settings
unfolding put_value
set_setting key value rows = put_value key value rows

pub get_setting-set_setting :
    (key value asked : String) (rows : Settings)
    → get_setting asked (set_setting key value rows)
      ≡ (if str_eq key asked then some value else get_setting asked rows)
unfolding get_setting set_setting
get_setting-set_setting key value asked rows = get_value-put_value key value asked rows
