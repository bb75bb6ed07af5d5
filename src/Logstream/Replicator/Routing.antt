-- ===== src/Logstream/Replicator/Routing.antt =====
-- Where `Publish` of logstream/replicator.go sends a change.
use harmonylite.Prelude.{
  Dict, lookup-insert, lookup, insert, ℕ, zero, suc, ◌+◌, ◌%◌, ◌≤◌, ◌<◌, String, ◌≡◌, refl, subst,
  inl, inr, false, some, List, [], arith, ◌==◌, Bool-cases, Result, ◌>>=◌, Result-cases,
  not_initialized, ok, err, string_eq, nat_eq,
}
use harmonylite.Logstream.Replicator.{
  LogConfig, NatsConstants, OpenIo, PublishIo, open_shards, publish, packed, send, on_ack,
  retry_stream, max_retries, update, make_shard_stream_config, failing,
}
use harmonylite.Logstream.ReplicationState.{Cbor, ReplicationState}

-- The streams of the shards 1 to `n` are open.
abbrev pub AreOpen : ℕ → Dict ℕ ℕ → Type 0
AreOpen n streams =
    (shard : ℕ) → 1 ≤ shard → shard ≤ n → (js : ℕ) × (lookup shard streams ≡ some js)

abbrev Opened : ℕ → Result (Dict ℕ ℕ) → Type 0
Opened n (err e) = Unit {0}
Opened n (ok streams) = AreOpen n streams

Opened-bind :
    {A : Type 0} (n : ℕ) (r : Result A) (f : A → Result (Dict ℕ ℕ))
    → ((a : A) → Opened n (f a))
    → Opened n (r >>= f)
Opened-bind n (err e) f h = tt
Opened-bind n (ok a) f h = h a

more :
    (i js : ℕ) (streams : Dict ℕ ℕ)
    → AreOpen i streams
    → AreOpen (suc i) (insert (suc i) js streams)
more i js streams h shard low high = rw lookup-insert (elim (Bool-cases (suc i == shard)) [
  | inl same ↦ (js, rw same refl)
  | inr other ↦ rw other (h shard low (ground (arith, high, other)))
])

none_between : (shard : ℕ) → 1 ≤ shard → shard ≤ 0 → ⊥
none_between shard low high = omega (arith, low, high)

send-sent :
    (c : LogConfig) (cbor : Cbor) (p : PublishIo) (rep : ReplicationState) (shard : ℕ)
    (bytes : List ℕ)
    → (send cbor c p rep shard bytes).sent ≡ some (shard, bytes)
unfolding send on_ack
send-sent c cbor p rep shard bytes = ground arith

-- What is sent is the packed payload.
pub publish-sent :
    (c : LogConfig) (cbor : Cbor) (io : PublishIo) (streams : Dict ℕ ℕ) (rep : ReplicationState)
    (h shard : ℕ) (payload bytes : List ℕ)
    → (publish cbor c io streams rep h payload).sent ≡ some (shard, bytes)
    → packed c io payload ≡ ok bytes
unfolding publish failing
publish-sent c cbor io streams rep h shard payload bytes e =
    elim (Result-cases (packed c io payload)) [
      | inl (x, q) ↦ ground arith
      | inr (b, q) ↦ ground (arith, send-sent c cbor io rep (suc (h % c.shards)) b)
    ]

module _ (show : ℕ → String) (nats : NatsConstants) (c : LogConfig) (io : OpenIo) where
  open_shards-Opened :
      (left i n : ℕ) (streams : Dict ℕ ℕ)
      → left + i ≡ n
      → AreOpen i streams
      → Opened n (open_shards show nats c io left i streams)
  unfolding open_shards
  open_shards-Opened zero i n streams e h = λ shard low high. h shard low (omega (arith, high))
  open_shards-Opened (suc left) i n streams e h = Opened-bind n (io.jet_stream (suc i)) _ (λ js.
      Opened-bind n (retry_stream io (suc i) max_retries 0 (err not_initialized)) _ (λ info.
        Opened-bind n
          (update io c (suc i) info (make_shard_stream_config show nats c (suc i) c.shards)) _
          (λ _.
            open_shards-Opened left (suc i) n (insert (suc i) js streams) (omega arith)
              (more i js streams h))))

  -- After the streams of all shards were opened, with at least one shard, a publication whose
  -- payload can be packed goes to the shard that the hash chooses, which is one of them: `Publish`
  -- finds its stream and does not panic, whatever the hash.
  pub publish_routes :
      (cbor : Cbor) (p : PublishIo) (streams : Dict ℕ ℕ) (rep : ReplicationState) (hash : ℕ)
      (payload bytes : List ℕ)
      → open_shards show nats c io c.shards 0 [] ≡ ok streams
      → 0 < c.shards
      → packed c p payload ≡ ok bytes
      → (suc (hash % c.shards) ≤ c.shards)
        × ((publish cbor c p streams rep hash payload).sent ≡ some (suc (hash % c.shards), bytes))
  publish_routes cbor p streams rep hash payload bytes opened some_shard pack = (in_range, reached)
    where
      in_range : suc (hash % c.shards) ≤ c.shards
      in_range = omega (arith, some_shard)

      are_open : AreOpen c.shards streams
      are_open = subst (Opened c.shards) opened (
          open_shards-Opened c.shards 0 c.shards [] (omega arith)
            (λ shard low high. elim (none_between shard low high) [ ]))

      ne_zero : (c.shards == 0) ≡ false
      ne_zero = ground (arith, some_shard)

      reached :
          (publish cbor c p streams rep hash payload).sent ≡ some (suc (hash % c.shards), bytes)
      reached =
          let (js, e) = are_open (suc (hash % c.shards)) (omega arith) in_range in
          unfold publish in
          rw (ne_zero, e, pack) (send-sent c cbor p rep (suc (hash % c.shards)) bytes)
