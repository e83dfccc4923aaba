-- ===== src/Tests/Merged.antt =====
-- A list of the white lister in two files.
use banjax.Base.{
  ◌≡◌, refl, List, [], ◌∷◌, Option, none, some, Bytes, codes, beq, lookup, insert_sorted, bytes_ltb,
  if◌then◌else◌,
}
use banjax.Base.Int.{pos}
use banjax.Config.Read.{
  done, Document, Yaml, Configuration, kind_of, is_filter, add_filter_node, include_all,
  process_node, process_nodes, process_config,
}
use banjax.Config.Read.Collected.{nodes_in, nodes_of}
use banjax.Config.Read.Expanded.{expand, expand_all, expand_node, expand_nodes}
use banjax.Config.Start.{fresh_configuration}
use banjax.Config.Merge.{
  YamlNode, null, undefined, scalar, sequence, mapping, Items, nil, item, Entries, end, entry,
  get_entry, filter_cfg,
}
use banjax.Config.Merge.Joined.{items_at, all_items_at}
use banjax.Config.Merge.Files.{nodes_of_files, process_config-filter_cfg}

abbrev listed : Bytes
listed = codes "white_listed_ips"

abbrev address_list : Items → YamlNode
address_list l = mapping (entry listed (sequence l) end)

abbrev first_list : YamlNode
first_list = address_list (item (scalar (codes "10.0.0.1")) nil)

abbrev second_list : YamlNode
second_list = address_list (item (scalar (codes "10.0.0.2")) (item (scalar (codes "10.0.0.3")) nil))

abbrev list_file : Document YamlNode
list_file =
    (some (codes "white_lister"), first_list)
    ∷ (some (codes "include"), sequence (item (scalar (codes "more.conf")) nil))
    ∷ []

abbrev elements_of : Items → List (Option Bytes)
elements_of nil = []
elements_of (item (scalar s) l) = some s ∷ elements_of l
elements_of (item undefined l) = none ∷ elements_of l
elements_of (item null l) = none ∷ elements_of l
elements_of (item (sequence xs) l) = none ∷ elements_of l
elements_of (item (mapping es) l) = none ∷ elements_of l

abbrev sequence_elements : YamlNode → List (Option Bytes)
sequence_elements (sequence l) = elements_of l
sequence_elements undefined = []
sequence_elements null = []
sequence_elements (scalar s) = []
sequence_elements (mapping es) = []

abbrev list_files : Yaml YamlNode
list_files = record {
  elements = sequence_elements;
  priority_list = λ n. [];
  as_int = λ n. none;
  load_file = λ path.
      if beq path (codes "d/more.conf")
      then some ((some (codes "white_lister"), second_list) ∷ [])
      else none;
}

-- `Null` becomes an empty map.
abbrev null_as_map : YamlNode → Option Entries
null_as_map null = some end
null_as_map undefined = some end
null_as_map (scalar s) = none
null_as_map (sequence l) = some end
null_as_map (mapping es) = some es

abbrev list_configuration : Configuration YamlNode
list_configuration = record fresh_configuration {
  filter_config_map =
      (
        codes "white_lister",
        record { config_node_list = first_list ∷ second_list ∷ []; priority = pos 0 },
      )
      ∷ [];
}

lists_read :
    process_config list_files (codes "d") 2 list_file fresh_configuration ≡ done list_configuration
unfolding process_config process_nodes process_node include_all add_filter_node insert_sorted
    bytes_ltb lookup kind_of is_filter beq
lists_read = refl

process_config-filter_cfg_example :
    (r : YamlNode) × (filter_cfg null_as_map
        (nodes_in (codes "white_lister") list_configuration.filter_config_map)
      ≡ some r)
    × (items_at listed r
        ≡ all_items_at listed
            (nodes_of_files list_files (codes "d") 2 list_file (codes "white_lister")))
unfolding is_filter kind_of beq get_entry nodes_of expand expand_nodes expand_node expand_all
process_config-filter_cfg_example =
    process_config-filter_cfg list_files (codes "d") 2 list_file null_as_map refl list_configuration
      (codes "white_lister") listed refl lists_read ((refl, refl, tt), ((refl, refl, tt), tt))
      (refl, (refl, tt))
