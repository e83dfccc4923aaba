-- ===== src/Config/Merge/Joined.antt =====
-- The lists of a filter that stand in several nodes are joined, in the order of the nodes.
use banjax.Base.{
  ◌≡◌, inl, inr, subst, refl, sym, ap, ◌∙◌, arith, Bool, true, false, List, [], ◌∷◌, ◌++◌, Option,
  some, Bytes, beq, beq_iff, All, Bool-cases, append_assoc, append-nil, if◌then◌else◌, ◌>>=◌,
}
use banjax.Config.Merge.{
  YamlNode, undefined, null, scalar, sequence, mapping, Items, nil, item, Entries, end, entry,
  get_entry, put_entry, push_all, onto_sequence, entries_of, merge_nodes, merge_entries, merge_all,
  filter_cfg,
}

-- A value that is no map, and one that is a list or missing.
abbrev pub is_plain : YamlNode → Bool
is_plain null = true
is_plain (scalar s) = true
is_plain (sequence xs) = true
is_plain undefined = false
is_plain (mapping es) = false

abbrev pub is_list : YamlNode → Bool
is_list undefined = true
is_list (sequence xs) = true
is_list null = false
is_list (scalar s) = false
is_list (mapping es) = false

-- Each key stands once, with a value that is no map.
abbrev pub AreFlat : Entries → Type 0
AreFlat end = Unit
AreFlat (entry k v es) = (is_plain v ≡ true) × (get_entry k es ≡ undefined) × AreFlat es

abbrev pub IsFlat : YamlNode → Type 0
IsFlat (mapping es) = AreFlat es
IsFlat undefined = false ≡ true
IsFlat null = false ≡ true
IsFlat (scalar s) = false ≡ true
IsFlat (sequence xs) = false ≡ true

abbrev pub to_list : Items → List YamlNode
to_list nil = []
to_list (item x xs) = x ∷ to_list xs

abbrev pub item_list : YamlNode → List YamlNode
item_list (sequence xs) = to_list xs
item_list undefined = []
item_list null = []
item_list (scalar s) = []
item_list (mapping es) = []

abbrev pub value_at : Bytes → YamlNode → YamlNode
value_at k (mapping es) = get_entry k es
value_at k undefined = undefined
value_at k null = undefined
value_at k (scalar s) = undefined
value_at k (sequence xs) = undefined

abbrev pub items_at : Bytes → YamlNode → List YamlNode
items_at k n = item_list (value_at k n)

-- The items under a key in each of the nodes.
abbrev pub all_items_at : Bytes → List YamlNode → List YamlNode
all_items_at k [] = []
all_items_at k (n ∷ ns) = items_at k n ++ all_items_at k ns

-- What a value becomes when a plain one, or none, is merged into it.
abbrev combine : YamlNode → YamlNode → YamlNode
combine a undefined = a
combine a null = null
combine a (scalar s) = scalar s
combine a (sequence ys) = onto_sequence a ys
combine a (mapping es) = a

get_entry-put_entry :
    (k j : Bytes) (w : YamlNode) (es : Entries)
    → get_entry k (put_entry j w es) ≡ (if beq j k then w else get_entry k es)
unfolding get_entry put_entry
get_entry-put_entry k j w end = refl
get_entry-put_entry k j w (entry i v es) = elim (Bool-cases (beq i j)) [
  | inl b ↦ ground (arith, b, beq_iff i j, beq_iff i k, beq_iff j k)
  | inr b ↦ ground (arith, b, get_entry-put_entry k j w es, beq_iff i j, beq_iff i k, beq_iff j k)
]

to_list-push_all : (xs ys : Items) → to_list (push_all xs ys) ≡ to_list xs ++ to_list ys
unfolding push_all
to_list-push_all nil ys = refl
to_list-push_all (item x xs) ys = ap (λ l. x ∷ l) (to_list-push_all xs ys)

combine-is_list :
    (a v : YamlNode)
    → is_list a ≡ true
    → is_list v ≡ true
    → (is_list (combine a v) ≡ true) × (item_list (combine a v) ≡ item_list a ++ item_list v)
unfolding onto_sequence
combine-is_list a undefined h h' = (h, sym (append-nil (item_list a)))
combine-is_list (sequence xs) (sequence ys) h h' = (refl, to_list-push_all xs ys)
combine-is_list undefined (sequence ys) h h' = (refl, refl)
combine-is_list null (sequence ys) h h' = absurd (cc h)
combine-is_list (scalar s) (sequence ys) h h' = absurd (cc h)
combine-is_list (mapping es) (sequence ys) h h' = absurd (cc h)
combine-is_list a null h h' = absurd (cc h')
combine-is_list a (scalar s) h h' = absurd (cc h')
combine-is_list a (mapping es) h h' = absurd (cc h')

module _ (converted : YamlNode → Option Entries) where
  merge_nodes-combine :
      (a v : YamlNode) → is_plain v ≡ true → merge_nodes converted a v ≡ some (combine a v)
  unfolding merge_nodes
  merge_nodes-combine a null h = refl
  merge_nodes-combine a (scalar s) h = refl
  merge_nodes-combine a (sequence ys) h = refl
  merge_nodes-combine a undefined h = absurd (cc h)
  merge_nodes-combine a (mapping es) h = absurd (cc h)

  merge_entries-get_entry :
      (k : Bytes) (es fs : Entries)
      → AreFlat es
      → (r : Entries) × (merge_entries converted fs es ≡ some r)
        × (get_entry k r ≡ combine (get_entry k fs) (get_entry k es))
  unfolding merge_nodes get_entry
  merge_entries-get_entry k end fs f = (fs, refl, refl)
  merge_entries-get_entry k (entry j v es) fs (p, u, f) =
      let w = combine (get_entry j fs) v in
      let (r, e, g) = merge_entries-get_entry k es (put_entry j w fs) f in
      (
        r,
        rw (merge_nodes-combine (get_entry j fs) v p) e,
        g ∙ elim (Bool-cases (beq j k)) [
          | inl b ↦
              let q = (beq_iff j k).0 b in
              let gone : get_entry k es ≡ undefined = subst (λ x. get_entry x es ≡ undefined) q u in
              rw (get_entry-put_entry k j w fs, b, gone) (ap (λ x. combine (get_entry x fs) v) q)
          | inr b ↦ rw (get_entry-put_entry k j w fs, b) refl
        ],
      )

  -- The node that is made so far: nothing yet, or a map with a list or nothing under the key.
  abbrev IsStarted : Bytes → YamlNode → Type 0
  IsStarted k null = Unit
  IsStarted k (mapping fs) = is_list (get_entry k fs) ≡ true
  IsStarted k undefined = false ≡ true
  IsStarted k (scalar s) = false ≡ true
  IsStarted k (sequence xs) = false ≡ true

  -- One more node.
  abbrev Grows : Bytes → YamlNode → YamlNode → Type 0
  Grows k a n =
      (r : YamlNode) × (merge_nodes converted a n ≡ some r)
      × IsStarted k r
      × (items_at k r ≡ items_at k a ++ items_at k n)

  merge_map :
      (a : YamlNode) (fs : Entries) (j : Bytes) (v : YamlNode) (es r : Entries)
      → entries_of converted a ≡ some fs
      → merge_entries converted fs (entry j v es) ≡ some r
      → merge_nodes converted a (mapping (entry j v es)) ≡ some (mapping r)
  unfolding merge_nodes
  merge_map a fs j v es r e m =
      let es' = entry j v es in
      ap (λ o. o >>= λ x. merge_entries converted x es' >>= λ y. some (mapping y)) e
      ∙ ap (λ o. o >>= λ y. some (mapping y)) m

  merge_map-Grows :
      (k : Bytes) (a : YamlNode) (fs : Entries) (j : Bytes) (v : YamlNode) (es : Entries)
      → entries_of converted a ≡ some fs
      → get_entry k fs ≡ value_at k a
      → is_list (get_entry k fs) ≡ true
      → AreFlat (entry j v es)
      → is_list (get_entry k (entry j v es)) ≡ true
      → Grows k a (mapping (entry j v es))
  merge_map-Grows k a fs j v es e g l f l' =
      let (r, m, p) = merge_entries-get_entry k (entry j v es) fs f in
      let (c, i) = combine-is_list (get_entry k fs) (get_entry k (entry j v es)) l l' in
      (
        mapping r,
        merge_map a fs j v es r e m,
        rw p c,
        ap item_list p ∙ i ∙ ap (λ x. item_list x ++ item_list (get_entry k (entry j v es))) g,
      )

  merge_nodes-Grows :
      converted null ≡ some end
      → (k : Bytes) (a n : YamlNode) → IsStarted k a
      → IsFlat n
      → is_list (value_at k n) ≡ true
      → Grows k a n
  unfolding merge_nodes entries_of get_entry
  merge_nodes-Grows c k a (mapping end) s f l = (a, refl, s, sym (append-nil (items_at k a)))
  merge_nodes-Grows c k null (mapping (entry j v es)) s f l =
      merge_map-Grows k null end j v es c refl refl f l
  merge_nodes-Grows c k (mapping fs) (mapping (entry j v es)) s f l =
      merge_map-Grows k (mapping fs) fs j v es refl refl s f l
  merge_nodes-Grows c k undefined (mapping (entry j v es)) s f l = absurd (cc s)
  merge_nodes-Grows c k (scalar t) (mapping (entry j v es)) s f l = absurd (cc s)
  merge_nodes-Grows c k (sequence xs) (mapping (entry j v es)) s f l = absurd (cc s)
  merge_nodes-Grows c k a undefined s f l = absurd (cc f)
  merge_nodes-Grows c k a null s f l = absurd (cc f)
  merge_nodes-Grows c k a (scalar t) s f l = absurd (cc f)
  merge_nodes-Grows c k a (sequence xs) s f l = absurd (cc f)

  merge_all-items :
      converted null ≡ some end
      → (k : Bytes) (a : YamlNode) (ns : List YamlNode) → IsStarted k a
      → All IsFlat ns
      → All (λ n. is_list (value_at k n) ≡ true) ns
      → (r : YamlNode) × (merge_all converted a ns ≡ some r)
        × (items_at k r ≡ items_at k a ++ all_items_at k ns)
  unfolding merge_all
  merge_all-items c k a [] s f l = (a, refl, sym (append-nil (items_at k a)))
  merge_all-items c k a (n ∷ ns) s (f, fs) (l, ls) =
      let (r, e, s', i) = merge_nodes-Grows c k a n s f l in
      let (t, e', i') = merge_all-items c k r ns s' fs ls in
      (
        t,
        rw e e',
        i'
            ∙ ap (λ x. x ++ all_items_at k ns) i
            ∙ append_assoc (items_at k a) (items_at k n) (all_items_at k ns),
      )

  pub filter_cfg-items :
      converted null ≡ some end
      → (k : Bytes) (ns : List YamlNode) → All IsFlat ns
      → All (λ n. is_list (value_at k n) ≡ true) ns
      → (r : YamlNode) × (filter_cfg converted ns ≡ some r) × (items_at k r ≡ all_items_at k ns)
  unfolding filter_cfg
  filter_cfg-items c k ns f l = merge_all-items c k null ns tt f l
