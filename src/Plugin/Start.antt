-- ===== src/Plugin/Start.antt =====
-- `TSPluginInit` of src/banjax.cpp, and check_ts_version of src/util.cpp.
use banjax.Base.{ℕ, Bool, false, List, [], ◌∷◌, Option, none, some, Bytes, ◌==◌, if◌then◌else◌}
use banjax.Base.Int.{ℤ, pos, leb_ℤ}
use banjax.Config.Read.{Reading, done, aborted, ◌>>=◌}
use banjax.Plugin.State.{nothing_handed, Outside}
use banjax.Plugin.Construct.{new_banjax}
use banjax.Plugin.Lifetime.{Process, with_actions}

-- `sscanf` with the format `%d.%d.%d`: how many numbers it has read, and the first.
module _ (scan : Bytes → ℕ × ℤ) where
  unfoldable pub check_ts_version : Option Bytes → Bool
  check_ts_version none = false
  check_ts_version (some ts_version) =
      let (n, major) = scan ts_version in if n == 3 then leb_ℤ (pos 2) major else false

-- What the system answers when the plugin is loaded: the version, the default folder, `stat` of a
-- folder (`none` where it fails, and whether it is a directory), and `TSPluginRegister`.
pub record PluginLoad : Type 0 where
  pub scan : Bytes → ℕ × ℤ
  pub traffic_server_version : Option Bytes
  pub plugin_dir : Bytes
  pub stat_is_dir : Bytes → Option Bool
  pub registers : Bool
  pub now : ℕ

unfoldable pub is_directory : Option Bool → Bool
is_directory none = false
is_directory (some d) = d

-- The folder of the configuration; `none` where the server is aborted.
unfoldable pub config_folder : PluginLoad → List Bytes → Option Bytes
unfolding is_directory
config_folder l [] = some l.plugin_dir
config_folder l (name ∷ []) = some l.plugin_dir
config_folder l (name ∷ dir ∷ args) = if is_directory (l.stat_is_dir dir) then some dir else none

module _ {N : Type 0} (o : Outside N) where
  -- `BanjaxPlugin`, before there is a transaction.
  unfoldable pub new_plugin : Bytes → ℕ → Reading (Process N)
  new_plugin dir now = new_banjax o dir nothing_handed 0 0 >>= λ b. done (record {
    plugin = record { config_dir = dir; current_state = b; restart_time = now; reload_time = now };
    older = [];
    transactions = [];
    actions = with_actions b [];
    created = 1;
  })

  unfoldable pub ts_plugin_init : PluginLoad → List Bytes → Reading (Process N)
  unfolding config_folder new_plugin
  ts_plugin_init l argv =
      if check_ts_version l.scan l.traffic_server_version
      then elim (config_folder l argv) [
        | none ↦ aborted
        | some dir ↦ if l.registers then new_plugin dir l.now else aborted
      ]
      else aborted
