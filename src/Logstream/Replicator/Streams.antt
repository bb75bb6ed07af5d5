-- ===== src/Logstream/Replicator/Streams.antt =====
-- The configuration of the shards' streams: logstream/replicator.go.
use harmonylite.Prelude.{
  tests, string_eq, ≐_refl, ℕ, ◌-◌, ◌^◌, ◌≤◌, ◌<◌, String, ◌≡◌, sym, ap, subst, ◌↔◌, true, List, [],
  ◌∷◌, arith, eq_iff,
}
use harmonylite.Logstream.Replicator.{
  LogConfig, NatsConstants, make_shard_stream_config, eq_shard_stream_config, replicas_for,
  StreamConfig, same_subject, subject_name,
}

-- With fewer than 2^64 - 2 shards every stream has from one to five replicas, whatever 64-bit number
-- is configured.
pub replicas-bounds :
    (replicas total_shards : ℕ)
    → replicas < 2 ^ 64
    → total_shards < 2 ^ 64 - 2
    → (1 ≤ replicas_for replicas total_shards) × (replicas_for replicas total_shards ≤ 5)
unfolding replicas_for
replicas-bounds replicas total_shards r t = ground arith

single-same_subject :
    (ss : List String) (t : String) → same_subject ss (t ∷ []) ≡ true → ss ≡ t ∷ []
single-same_subject [] t h = cc
single-same_subject (s ∷ []) t h = ap (λ u. u ∷ []) ((eq_iff s t).0 h)
single-same_subject (s ∷ u ∷ ss) t h = cc

-- The comparison of a stream's configuration with the wanted one is exact: it holds only for equal
-- configurations, so that an existing stream is updated whenever it differs in a field.
pub eq_config_iff :
    (show : ℕ → String) (nats : NatsConstants) (c : LogConfig) (shard total_shards : ℕ)
    (a : StreamConfig)
    → (eq_shard_stream_config a (make_shard_stream_config show nats c shard total_shards) ≡ true)
      ↔ (a ≡ make_shard_stream_config show nats c shard total_shards)
unfolding eq_shard_stream_config make_shard_stream_config
eq_config_iff show nats c shard total_shards a =
    ((λ e. equal e), (λ e. subst (λ x. eq_shard_stream_config x b ≡ true) (sym e) itself))
  where
    b : StreamConfig
    b = make_shard_stream_config show nats c shard total_shards

    itself : eq_shard_stream_config b b ≡ true
    itself =
        ground
          (arith, ≐_refl ⦃e = string_eq⦄ b.name, ≐_refl ⦃e = string_eq⦄ (subject_name show c shard))

    equal : eq_shard_stream_config a b ≡ true → a ≡ b
    equal e = grind (tests, single-same_subject a.subjects (subject_name show c shard))
