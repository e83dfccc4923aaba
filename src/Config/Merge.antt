-- ===== src/Config/Merge.antt =====
-- `merge_nodes` of src/banjax_filter.h, and the constructor of a filter that joins the nodes of its
-- configuration with it. A node is a value: a document has no anchors, so that no node is shared.
pub mod Joined
pub mod Files
use banjax.Base.{
  Bool, true, false, List, [], ◌∷◌, Option, none, some, Bytes, beq, ◌>>=◌, if◌then◌else◌,
}

-- A YAML node. The key of an entry is a scalar.
mutual
  pub data YamlNode : Type 0 where
    undefined null : YamlNode
    scalar : Bytes → YamlNode
    sequence : Items → YamlNode
    mapping : Entries → YamlNode

  pub data Items : Type 0 where
    nil : Items
    item : YamlNode → Items → Items

  pub data Entries : Type 0 where
    end : Entries
    entry : Bytes → YamlNode → Entries → Entries

-- `node[key]`, where a key that is missing is undefined, and the assignment to it.
unfoldable pub get_entry : Bytes → Entries → YamlNode
get_entry k end = undefined
get_entry k (entry j v es) = if beq j k then v else get_entry k es

unfoldable pub put_entry : Bytes → YamlNode → Entries → Entries
put_entry k w end = entry k w end
put_entry k w (entry j v es) =
    let rest = put_entry k w es in if beq j k then entry j w es else entry j v rest

abbrev pub has_entries : Entries → Bool
has_entries end = false
has_entries (entry k v es) = true

unfoldable pub push_all : Items → Items → Items
push_all nil ys = ys
push_all (item x xs) ys = item x (push_all xs ys)

unfoldable pub onto_sequence : YamlNode → Items → YamlNode
onto_sequence (sequence xs) ys = sequence (push_all xs ys)
onto_sequence undefined ys = sequence ys
onto_sequence null ys = sequence ys
onto_sequence (scalar s) ys = sequence ys
onto_sequence (mapping es) ys = sequence ys

-- What `node[key]` makes of a node that is no map: its entries, or `none` for an exception.
module _ (converted : YamlNode → Option Entries) where
  unfoldable pub entries_of : YamlNode → Option Entries
  entries_of (mapping es) = some es
  entries_of (sequence xs) = converted (sequence xs)
  entries_of undefined = converted undefined
  entries_of null = converted null
  entries_of (scalar s) = converted (scalar s)

  unfoldable mutual
    unfolding entries_of

    pub merge_nodes : YamlNode → YamlNode → Option YamlNode
    merge_nodes a (mapping es) = elim (has_entries es) [
      | false ↦ some a
      | true ↦ do fs ← entries_of a; merged ← merge_entries fs es; some (mapping merged)
    ]
    merge_nodes a (sequence ys) = some (onto_sequence a ys)
    merge_nodes a undefined = some undefined
    merge_nodes a null = some null
    merge_nodes a (scalar s) = some (scalar s)

    pub merge_entries : Entries → Entries → Option Entries
    merge_entries fs end = some fs
    merge_entries fs (entry k v es) = do
      w ← merge_nodes (get_entry k fs) v
      merge_entries (put_entry k w fs) es

  -- The loop of the constructor, from `cfg` on.
  unfoldable pub merge_all : YamlNode → List YamlNode → Option YamlNode
  merge_all cfg [] = some cfg
  merge_all cfg (n ∷ ns) = do cfg' ← merge_nodes cfg n; merge_all cfg' ns

  -- `cfg` of a filter.
  unfoldable pub filter_cfg : List YamlNode → Option YamlNode
  unfolding merge_all
  filter_cfg config_node_list = merge_all null config_node_list
