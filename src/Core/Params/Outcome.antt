-- ===== src/Core/Params/Outcome.antt =====
-- core/core_engine.cpp, get_param: every outcome.
use omgp.Base.{ℕ, ◌≡◌, ◌⊎◌, true, false, none, get_or, modify}
use omgp.Core.Types.{CoreStatus, ok, queue_full, not_discovered, request_id_reused, get_op}
use omgp.Core.Ring.{Ring, is_full, push}
use omgp.Core.Engine.{CoreEngine}
use omgp.Core.Params.{param_target_ready, free_id}

-- The outcome of get_param(): the request is queued under an id that no outstanding request has, which is
-- taken then; or nothing happens.
abbrev pub Outcome : ℕ → ℕ → ℕ → ℕ → CoreEngine → CoreStatus × CoreEngine × ℕ → Type 0
Outcome node_id param_id scope out_id c (status, c', id) =
    ((status ≡ ok)
      × (param_target_ready node_id c ≡ true)
      × (get_or c.request_id_used id true ≡ false)
      × (c' ≡ record c {
        request_id_used = modify id (λ _. true) c.request_id_used;
        param_queue =
            (push
              (record {
                node_id = node_id;
                kind = get_op;
                param_id = param_id;
                scope = scope;
                value = 0;
                request_id = id;
              })
              c.param_queue).1;
      })
      × ((push
            (record {
              node_id = node_id;
              kind = get_op;
              param_id = param_id;
              scope = scope;
              value = 0;
              request_id = id;
            })
            c.param_queue).0
          ≡ true))
    ⊎ (((status ≡ not_discovered) × (param_target_ready node_id c ≡ false))
        ⊎ ((status ≡ queue_full) × (is_full c.param_queue ≡ true))
        ⊎ ((status ≡ request_id_reused) × (free_id 0 c.request_id_used ≡ none)))
      × (c' ≡ c)
      × (id ≡ out_id)
