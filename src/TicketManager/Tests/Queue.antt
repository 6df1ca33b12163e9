-- ===== src/TicketManager/Tests/Queue.antt =====
-- The value-cached queue at concrete inputs.
use hopr_impls.Base.{ℕ, ◌≡◌, refl, some, [], ◌∷◌, arith, head?, tail, ◌+◌}
use hopr_impls.Base.Keyed.{get, insert}
use hopr_impls.HoprApi.{Ticket}
use hopr_impls.TicketManager.Backend.Sorted.{sorted}
use hopr_impls.TicketManager.Queue.Traits.{place}
use hopr_impls.TicketManager.Queue.Sums.{total, matching}
use hopr_impls.TicketManager.Queue.Cached.{cached, push, pop, drain}
use hopr_impls.TicketManager.Queue.Value.{IsCached, push-IsCached, pop-IsCached}
use hopr_impls.TicketManager.Queue.Reads.{push-err}
use hopr_impls.TicketManager.Queue.Emptied.{drain-IsCached}
use hopr_impls.TicketManager.Backend.Memory
use hopr_impls.TicketManager.Backend.Memory.{heap, take_least}
use hopr_impls.TicketManager.Backend.Laws.{memory_promise}
use hopr_impls.TicketManager.Tests.Data.{
  api, q, store, adapter, adapter-IsCached, fifth, seventh, read_only, read_only_promise, api_total,
}

abbrev sixth : Ticket
sixth = record { channel_id = 1; channel_epoch = 1; index = 6; amount = 4; body = 0 }

push-IsCached_example :
    let (r, v', s') = push api q adapter sixth store in
    IsCached api q (memory_promise api api_total) v' s'
    × ((memory_promise api api_total).contents v'.queue s'
        ≡ place api sixth ((memory_promise api api_total).contents 0 store))
unfolding push Memory.push heap get memory_promise sorted place take_least
push-IsCached_example =
    push-IsCached api q (memory_promise api api_total) adapter sixth store adapter-IsCached
      (refl, (refl, tt)) (omega arith) refl

pop-IsCached_example :
    let (_, v', s') = pop api q adapter store in
    IsCached api q (memory_promise api api_total) v' s'
    × (some fifth ≡ head? ((memory_promise api api_total).contents 0 store))
    × ((memory_promise api api_total).contents v'.queue s'
        ≡ tail ((memory_promise api api_total).contents 0 store))
unfolding pop Memory.pop Memory.peek heap get insert take_least
pop-IsCached_example =
    pop-IsCached api q (memory_promise api api_total) adapter store (some fifth) adapter-IsCached
      refl

abbrev from_sixth : ℕ
from_sixth = 20

push-err_example :
    let (_, v', s') = push api read_only adapter sixth store in
    (read_only_promise.contents v'.queue s' ≡ read_only_promise.contents 0 store)
    × (cached 1 v'.value_cache ≡ total (matching 1 0) (read_only_promise.contents v'.queue s') + 4)
unfolding push memory_promise sorted place take_least heap get
push-err_example =
    push-err api read_only read_only_promise adapter sixth store 3
      (record { exact = adapter-IsCached.exact; uniform = adapter-IsCached.uniform }) (omega arith)
      refl

drain-IsCached_example :
    let (_, v', s') = drain api q 3 adapter store in
    IsCached api q (memory_promise api api_total) v' s'
    × (fifth ∷ seventh ∷ [] ≡ (memory_promise api api_total).contents 0 store)
    × ((memory_promise api api_total).contents v'.queue s' ≡ [])
unfolding drain pop Memory.pop Memory.peek heap get insert memory_promise sorted place take_least
drain-IsCached_example =
    drain-IsCached api q (memory_promise api api_total) 3 adapter store (fifth ∷ seventh ∷ [])
      adapter-IsCached (omega arith) refl
