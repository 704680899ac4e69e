-- ===== src/HostTree/Index.antt =====
-- hosttree.go: the root of a host tree and its map `hosts` from public keys to nodes, with the two
-- moves that the methods make on them together.
pub mod Invariant
pub mod Find
use sia_hostdb_profiles.Prelude.{ℕ, Option, some, true}
use sia_hostdb_profiles.Prelude.Dict
use sia_hostdb_profiles.Prelude.Dict.{Dict}
use sia_hostdb_profiles.Prelude.Options.{◌>>=◌}
use sia_hostdb_profiles.HostEntry.{HostDbEntry}
use sia_hostdb_profiles.HostTree.Node.{HostEntry, Tree, NodePath, recursive_insert, remove, cell_at}

pub record Index : Type 0 where
  pub root : Tree
  pub hosts : Dict NodePath

-- `string(entry.PublicKey.Key)`
abbrev pub key : HostDbEntry → ℕ
key h = h.public_key.key

-- `_, node := ht.root.recursiveInsert(entry); ht.hosts[string(entry.PublicKey.Key)] = node`
unfoldable pub place : HostEntry → Index → Index
place e ix =
    let (root, added, p) = recursive_insert true e ix.root in
    record { root = root; hosts = Dict.insert (key e.host) p ix.hosts }

-- `node.remove(); delete(ht.hosts, k)`, with the node's entry, which the removal leaves in place.
-- `none` is the panic on a node with no entry.
unfoldable pub take_out : ℕ → NodePath → Index → Option (HostEntry × Index)
take_out k p ix = do
  root ← remove p ix.root
  c ← cell_at p ix.root
  e ← c.entry
  some (e, record { root = root; hosts = Dict.delete k ix.hosts })
