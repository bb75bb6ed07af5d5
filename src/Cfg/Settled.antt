-- ===== src/Cfg/Settled.antt =====
-- Which settings hold after `init` and `Load` of cfg/config.go.
use harmonylite.Prelude.{
  ℕ, String, ◌≡◌, ◌≢◌, Option, none, some, ◌==◌, if◌then◌else◌, Result, ok, string_eq, nat_eq,
}
use harmonylite.Cfg.{Configuration, Settings, Decoded, decoded}

-- A file of TOML: a value for the node's id, if it has one, and the decoding, which changes the id to
-- that value or leaves it.
pub record ConfigFile : Type 0 where
  pub node_id : Option ℕ
  pub decode : Configuration → Decoded
  pub decode-node_id :
      (c d : Configuration)
      → decode c ≡ decoded d
      → d.node_id ≡ (elim node_id [ none ↦ c.node_id | some n ↦ n ])

module _ (join : String → String → String) (flag : ℕ) (file : ConfigFile)
    (absolute : String → Result String) where
  -- The file was decoded: the flag's id comes before the file's, and that before the one at hand; the
  -- sequence map's path is the file's, or `seq-map.cbor` in the data directory where the file has
  -- none; the data directory is the database's; the rest is the file's.
  abbrev pub IsSettled : Settings → Configuration → Settings → Type 0
  IsSettled s d t =
      (t.config ≡ record d { node_id = t.config.node_id; seq_map_path = t.config.seq_map_path })
      × (t.config.node_id ≡ (
          if flag == 0 then (elim file.node_id [ none ↦ s.config.node_id | some n ↦ n ]) else flag))
      × ((d.seq_map_path ≡ "") → t.config.seq_map_path ≡ join t.data_root_dir "seq-map.cbor")
      × ((d.seq_map_path ≢ "") → t.config.seq_map_path ≡ d.seq_map_path)
      × (absolute d.db_path ≡ ok t.data_root_dir)
