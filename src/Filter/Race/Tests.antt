-- ===== src/Filter/Race/Tests.antt =====
-- The overlapping calls at a streaming request that was reported, with its timer pending.
use istio_llm_filter.Common.{◌+◌, ◌≡◌, refl, true, List, arith}
use istio_llm_filter.Metadata.Queue.{new_async_queue}
use istio_llm_filter.Filter.{State, is_load_aware_enabled}
use istio_llm_filter.Config.{find_lb_mapping_rule}
use istio_llm_filter.Filter.Prompt.{load_aware}
use istio_llm_filter.Filter.Accounting.{size}
use istio_llm_filter.Filter.Tests.{pass_through, config, start}
use istio_llm_filter.Filter.Race.{returned, panicked, Caller, interleave, both_called}
use istio_llm_filter.Filter.Race.Overlap.{HasRoom, overlap_deletes_twice, overlap_panics}

aware : load_aware pass_through config start ≡ true
unfolding is_load_aware_enabled find_lb_mapping_rule
aware = refl

room : HasRoom 2 start.1.center
unfolding new_async_queue
room = record { on = refl; room = omega arith }

overlap_deletes_twice_example :
    (cs : List Caller) × (t : State pass_through) × (interleave pass_through config "u" cs
        (both_called pass_through config "u" start)
      ≡ record { timer_at = returned; handler_at = returned; shared = t })
    × (size t.1.center ≡ size start.1.center + 2)
overlap_deletes_twice_example =
    overlap_deletes_twice pass_through config "u" start aware refl refl room

overlap_panics_example :
    ((cs : List Caller) × ((interleave pass_through config "u" cs
          (both_called pass_through config "u" start)).handler_at
        ≡ panicked))
    × ((cs : List Caller) × ((interleave pass_through config "u" cs
            (both_called pass_through config "u" start)).timer_at
          ≡ panicked))
overlap_panics_example = overlap_panics pass_through config "u" start aware refl refl refl
