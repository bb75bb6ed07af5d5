-- ===== src/Tests/CfgTests.antt =====
-- The settings after a file that names the database alone.
use Prim.Native.String.{◌++◌ as ◌^^◌}
use harmonylite.Prelude.{String, ◌≡◌, refl, none, arith, ok}
use harmonylite.Cfg.{Configuration, Settings, Decoded, decoded, default_config, init, load}
use harmonylite.Cfg.Settled.{ConfigFile}

abbrev join : String → String → String
join a b = String.◌∷◌ "/" (a ^^ b)

abbrev named_db : Configuration → Decoded
named_db c = decoded (record c { db_path = "/data/a.db" })

named_db-node_id : (c d : Configuration) → named_db c ≡ decoded d → d.node_id ≡ c.node_id
named_db-node_id c d e = ground (arith, e)

abbrev file : ConfigFile
file = record { node_id = none; decode = named_db; decode-node_id = named_db-node_id }

abbrev start : Settings
start = record {
  config = init (λ id. 77) (ok "machine") "random" (default_config join "tmp");
  data_root_dir = "tmp";
}

abbrev loaded : Settings
loaded = (load join 5 file.decode (λ p. ok "/data") start).1

loaded_id : loaded.config.node_id ≡ 5
unfolding load init default_config
loaded_id = refl
