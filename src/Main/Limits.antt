-- ===== src/Main/Limits.antt =====
-- A configuration that run of cmd/kigeon/main.go goes on with starts the queue, with limits that fit
-- each other.
use kigeon.Prelude.{
  ℕ, zero, suc, ◌+◌, ◌^◌, ◌<◌, ◌≡◌, refl, sym, ap, subst, String, true, false, [], arith, ℤ, pos,
  negsuc,
}
use kigeon.Errors.{Result, ok, wrap_err}
use kigeon.Config.{Config, is_negative}
use kigeon.Config.Defaults.{apply_defaults, default_queue, number_or, default_events_max_bytes}
use kigeon.Config.WellFormed.{is_well_formed}
use kigeon.EventQueue.Start.{
  Nats, int64_of, kv_max_bytes, server_options, stream_config, key_value_config, launch,
  start_sized, start_event_queue,
}
use kigeon.Main.Accepted.{IsAccepted, configured-IsAccepted}
use kigeon.Main.{override, configure, options_of, start_queue}

int64_of_small : (n : ℕ) → n < 2 ^ 63 → int64_of n ≡ pos n
unfolding int64_of
int64_of_small n h = ground arith

-- With the defaults, a number of bytes that is not negative is positive.
positive :
    (n : ℤ)
    → is_negative (number_or default_events_max_bytes n) ≡ false
    → (m : ℕ) × (number_or default_events_max_bytes n ≡ pos (suc m))
unfolding number_or
positive (pos zero) h = (524287999, refl)
positive (pos (suc n)) h = (n, refl)
positive (negsuc n) h = absurd (ground (arith, h))

accepted-bytes :
    (c : Config) → is_well_formed c ≡ true → is_negative c.queue.events_max_bytes ≡ false
unfolding is_well_formed
accepted-bytes c h = ground (arith, h)

-- a configuration whose size starts the queue
HasSize : Config → Type 0
HasSize c = (m : ℕ) × (c.queue.events_max_bytes ≡ pos (suc m))

accepted-HasSize :
    (log_level address : String) (c : Config) → IsAccepted log_level address c → HasSize c
unfolding override apply_defaults default_queue HasSize
accepted-HasSize log_level address c a = subst HasSize (sym a.made) (
    positive a.file.queue.events_max_bytes (
      accepted-bytes (override log_level address (apply_defaults a.file))
        (subst (λ k. is_well_formed k ≡ true) a.made a.well_formed)))

module _ {Server Connection JetStream Stream KeyValue Consumer : Type 0}
    (nats : Nats Server Connection JetStream Stream KeyValue Consumer) where
  -- With a configuration that `run` goes on with, whatever the file and the flags are, the queue gets
  -- past its check of the size, so that only the file system and NATS can keep it from starting; and
  -- the server's limit on storage is what the stream and the deduplication store may take together,
  -- if that is below 2^63.
  pub configure-start_queue :
      {Raw : Type 0} (read_file : String → Result Raw) (unmarshal : Raw → Result Config)
      (path log_level address : String) (c : Config)
      → configure read_file unmarshal path log_level address ≡ ok c
      → (m : ℕ) × (start_queue nats c
          ≡ wrap_err "failed to start event queue: %w" []
              (launch nats c.global.data_dir (options_of c) (suc m)))
        × ((stream_config (options_of c) (suc m)).max_bytes ≡ c.queue.events_max_bytes)
        × (suc m + (key_value_config (options_of c)).max_bytes < 2 ^ 63
            → (server_options c.global.data_dir (options_of c) (suc m)).jet_stream_max_store
              ≡ pos (suc m + (key_value_config (options_of c)).max_bytes))
  unfolding start_queue start_event_queue start_sized options_of HasSize stream_config
      server_options key_value_config
  configure-start_queue read_file unmarshal path log_level address c h =
      let size =
        accepted-HasSize log_level address c
          (configured-IsAccepted log_level address read_file unmarshal path c h) in
      (
        size.0,
        ap
            (λ b.
              wrap_err "failed to start event queue: %w" []
                (start_sized nats c.global.data_dir (options_of c) b))
            size.1,
        sym size.1,
        int64_of_small (suc size.0 + kv_max_bytes),
      )
