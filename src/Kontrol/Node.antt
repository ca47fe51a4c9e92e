-- ===== src/Kontrol/Node.antt =====
-- kontrol/node.go: the nodes of etcd's tree, and the kites that they stand for.
pub mod Stored
use kite.Common.{
  ltb, leb, nat_beq, if◌then◌else◌, nat_beq_iff, Bool-cases, Option-cases, Eq, ◌==◌, ==_iff,
  ==_refl, nat_eq, Text, codes, text_beq, text_beq_iff, text_eq, is_empty, contains_byte,
  has_prefix, has_prefix-append, contains_text, count_byte, cut_at, split_n, split, part,
  cut_at_here, cut_at-append, cut_at-none, split_n-append, split-append, split_whole,
  count_byte-append, count_byte_zero, count_byte_none, count_byte_here, Result, ok, err, ◌>>=◌,
  ◌>>◌, ℕ, zero, suc, ◌+◌, ◌-◌, ◌*◌, ◌/◌, ◌%◌, ◌^◌, ◌≤◌, ◌<◌, ◌≡◌, refl, sym, ap, ◌∙◌, ◌≢◌, ◌↔◌,
  ◌⊎◌, inl, inr, Bool, true, false, ◌&&◌, ◌||◌, not, Option, none, some, List, [], ◌∷◌, ◌++◌, map,
  append_assoc, append-nil, arith,
}
use kite.Protocol.{Kite, KiteWithToken, RegisterValue, slash}

-- A node of etcd's client (github.com/coreos/etcd/client): a directory with its nodes, or a leaf
-- with its value.
mutual
  pub data EtcdNode : Type 0 where
    directory : Text → EtcdNodes → EtcdNode
    leaf : Text → Text → EtcdNode

  pub data EtcdNodes : Type 0 where
    nil : EtcdNodes
    cons : EtcdNode → EtcdNodes → EtcdNodes

pub data NodeError : Type 0 where
  invalid_kite : Text → NodeError
  bad_value : NodeError

-- `Node.HasValue`; a directory's value is empty.
unfoldable pub has_value : EtcdNode → Bool
has_value (directory key nodes) = false
has_value (leaf key value) = not (is_empty value)

abbrev pub key_of : EtcdNode → Text
key_of (directory key nodes) = key
key_of (leaf key value) = key

abbrev pub value_at : EtcdNode → Text
value_at (directory key nodes) = []
value_at (leaf key value) = value

-- `Node.Flatten`: the loop over the nodes of a directory. A leaf has no nodes.
unfoldable mutual
  pub flatten : EtcdNode → List EtcdNode
  flatten (directory key nodes) = flatten_nodes nodes
  flatten (leaf key value) = []

  pub flatten_nodes : EtcdNodes → List EtcdNode
  flatten_nodes nil = []
  flatten_nodes (cons n ns) = flatten_child n (flatten_nodes ns)

  pub flatten_child : EtcdNode → List EtcdNode → List EtcdNode
  flatten_child (directory key nodes) rest = flatten_nodes nodes ++ rest
  flatten_child (leaf key value) rest = leaf key value ∷ rest

-- strings.TrimPrefix(s, "/")
unfoldable pub trim_leading_slash : Text → Text
trim_leading_slash [] = []
trim_leading_slash (c ∷ s) = if nat_beq c slash then s else c ∷ s

-- The test of `KiteFromKey` on the fields of a key.
unfoldable pub kite_of_fields : Text → List Text → Result NodeError Kite
kite_of_fields key (prefix ∷ u ∷ e ∷ n ∷ v ∷ r ∷ h ∷ i ∷ []) =
    if prefix == codes "kites"
    then ok (record {
      username = u;
      environment = e;
      name = n;
      version = v;
      region = r;
      hostname = h;
      id = i;
    })
    else err (invalid_kite key)
kite_of_fields key _ = err (invalid_kite key)

-- `Node.KiteFromKey`
unfoldable pub kite_from_key : Text → Result NodeError Kite
unfolding kite_of_fields trim_leading_slash
kite_from_key key = kite_of_fields key (split slash (trim_leading_slash key))

-- encoding/json on the values: what it writes for a value, and what it reads.
module _ (unmarshal : Text → Option RegisterValue) where
  -- `Node.Value`
  unfoldable pub value : EtcdNode → Result NodeError RegisterValue
  value n = elim (unmarshal (value_at n)) [ none ↦ err bad_value | some rv ↦ ok rv ]

  -- `Node.Kite`
  unfoldable pub node_kite : EtcdNode → Result NodeError KiteWithToken
  unfolding value
  node_kite n = do
    kite ← kite_from_key (key_of n)
    val ← value n
    ok (record { kite = kite; url = val.url; key_id = val.key_id; token = [] })

  -- The loop of `Node.Kites`.
  unfoldable pub kites_of : List EtcdNode → Result NodeError (List KiteWithToken)
  kites_of [] = ok []
  kites_of (n ∷ ns) = do kite ← node_kite n; rest ← kites_of ns; ok (kite ∷ rest)

  -- `Node.Kites`
  unfoldable pub node_kites : EtcdNode → Result NodeError (List KiteWithToken)
  unfolding kites_of
  node_kites n = kites_of (flatten n)
