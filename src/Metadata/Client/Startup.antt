-- ===== src/Metadata/Client/Startup.antt =====
-- `NewClient` of pkg/metadata/client.go and the size of its queue.
use istio_llm_filter.Common.{
  ℕ, suc, ◌<◌, ◌≤◌, ◌≡◌, ◌||◌, true, ltb, refl, ◌∙◌, String, Option, ◌∷◌, ok, panic, codes, arith,
}
use istio_llm_filter.Common.Int.{ℤ, pos, negsuc, pos_part, ltb_ℤ}
use istio_llm_filter.Metadata.Queue.Order.{IsValid, new_async_queue-IsValid}
use istio_llm_filter.Metadata.Queue.{new_async_queue}
use istio_llm_filter.Metadata.Environment.{Env, get_env_int, get_env_duration, int_limit, minus}
use istio_llm_filter.Metadata.Environment.Decimal.{decimal, get_env_int-decimal}
use istio_llm_filter.Metadata.Client.{Client, new_client, started}

abbrev pub queue_variable : String
queue_variable = "METADATA_CENTER_QUEUE_SIZE"

-- The number of workers that are started.
abbrev pub workers : Env → ℕ
workers env = pos_part (get_env_int env "METADATA_CENTER_WORKER_COUNT" (pos 100))

-- `make` cannot give the channel its buffer.
new_client_panics :
    (chan_limit : ℕ) (parse_duration : String → Option ℤ) (env : Env)
    → (ltb_ℤ (get_env_int env queue_variable (pos 1000)) (pos 0)
        || ltb chan_limit (pos_part (get_env_int env queue_variable (pos 1000))))
      ≡ true
    → new_client chan_limit parse_duration env ≡ panic
unfolding new_client
new_client_panics chan_limit parse_duration env e = rw e refl

new_client_starts :
    (chan_limit : ℕ) (parse_duration : String → Option ℤ) (env : Env) (n : ℕ)
    → get_env_int env queue_variable (pos 1000) ≡ pos n
    → n ≤ chan_limit
    → (c : Client) × (new_client chan_limit parse_duration env ≡ ok c)
      × (c.async_queue.queue_size ≡ n)
      × IsValid (workers env) c.async_queue
unfolding new_client new_async_queue
new_client_starts chan_limit parse_duration env n e small =
    let update =
      get_env_duration parse_duration env "METADATA_CENTER_UPDATE_STATS_TIMEOUT" (pos 100000000) in
    (
      started parse_duration env n,
      rw e (ground arith),
      refl,
      new_async_queue-IsValid n (workers env) update,
    )

-- Where the queue's size is set to the decimal notation of n, `NewClient` returns a client whose
-- queue has that size and meets the queue's invariant for the workers that are set, if the runtime can
-- make a channel of n pointers, and panics if it cannot; where the size is set to a negative number,
-- `NewClient` panics.
pub new_client_queue :
    (chan_limit : ℕ) (parse_duration : String → Option ℤ) (env : Env) (n : ℕ)
    → n < int_limit
    → (codes (env queue_variable) ≡ decimal n
        → n ≤ chan_limit
        → (c : Client) × (new_client chan_limit parse_duration env ≡ ok c)
          × (c.async_queue.queue_size ≡ n)
          × IsValid (workers env) c.async_queue)
      × (codes (env queue_variable) ≡ decimal n
          → chan_limit < n
          → new_client chan_limit parse_duration env ≡ panic)
      × (codes (env queue_variable) ≡ b'-' ∷ decimal (suc n)
          → new_client chan_limit parse_duration env ≡ panic)
new_client_queue chan_limit parse_duration env n h = (
  λ e small. new_client_starts chan_limit parse_duration env n (size e) small,
  λ e large. new_client_panics chan_limit parse_duration env (rw (size e) (ground arith)),
  λ e. new_client_panics chan_limit parse_duration env (rw (minus_size e) (ground arith)),
)
  where
    size :
        codes (env queue_variable) ≡ decimal n → get_env_int env queue_variable (pos 1000) ≡ pos n
    size e = (get_env_int-decimal env queue_variable (pos 1000) n).0 e h

    minus_suc : minus (suc n) ≡ negsuc n
    minus_suc = ground arith

    minus_size :
        codes (env queue_variable) ≡ b'-' ∷ decimal (suc n)
        → get_env_int env queue_variable (pos 1000) ≡ negsuc n
    minus_size e =
        (get_env_int-decimal env queue_variable (pos 1000) (suc n)).1 e (omega arith) ∙ minus_suc
