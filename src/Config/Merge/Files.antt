-- ===== src/Config/Merge/Files.antt =====
-- The configuration of a filter, from the files to the node that the filter reads.
use banjax.Base.{ℕ, ◌≡◌, sym, subst, true, List, Option, some, Bytes, All, lookup}
use banjax.Config.Read.{done, Document, Yaml, Configuration, is_filter, process_config}
use banjax.Config.Read.Expanded.{expand}
use banjax.Config.Read.Collected.{nodes_in, nodes_of, process_config-nodes_in}
use banjax.Config.Start.{fresh_configuration}
use banjax.Config.Merge.{YamlNode, null, Entries, end, filter_cfg}
use banjax.Config.Merge.Joined.{IsFlat, is_list, value_at, items_at, all_items_at, filter_cfg-items}

module _ (yaml : Yaml YamlNode) (dir : Bytes) (fuel : ℕ) (cfg : Document YamlNode) where
  -- The nodes of a filter in the file, with each included file in the place of its name.
  abbrev pub nodes_of_files : Bytes → List YamlNode
  nodes_of_files f = nodes_of f (expand yaml dir fuel cfg)

  -- If each node of a filter in the configuration and its included files is a map with keys that
  -- differ and values that are no maps, and has a list or nothing under a key, then the
  -- constructor of the filter makes its node without an exception, and the list under the key is
  -- made of those lists, in the order of the files. yaml-cpp takes `Null` for an empty map.
  pub process_config-filter_cfg :
      (converted : YamlNode → Option Entries)
      → converted null ≡ some end
      → (c : Configuration YamlNode) (f k : Bytes) → is_filter f ≡ true
      → process_config yaml dir fuel cfg fresh_configuration ≡ done c
      → All IsFlat (nodes_of_files f)
      → All (λ n. is_list (value_at k n) ≡ true) (nodes_of_files f)
      → (r : YamlNode) × (filter_cfg converted (nodes_in f c.filter_config_map) ≡ some r)
        × (items_at k r ≡ all_items_at k (nodes_of_files f))
  unfolding nodes_in lookup
  process_config-filter_cfg converted e c f k i p flat lists =
      subst
        (λ ns.
          (r : YamlNode) × (filter_cfg converted ns ≡ some r)
          × (items_at k r ≡ all_items_at k (nodes_of_files f)))
        (sym (process_config-nodes_in yaml dir fuel cfg fresh_configuration c f i p))
        (filter_cfg-items converted e k (nodes_of_files f) flat lists)
