-- ===== src/MQueue/Admin.antt =====
-- The functions of src/mqueue/mqueue.c that set, count and clear a queue.
use backend_in_c.Prelude.{ℕ, zero, suc, ◌+◌, ◌%◌, Option, none, some, Bool, CString}
use backend_in_c.Common.{ErrorCode, success, error_invalid_param}
use backend_in_c.Common.Words.{ℤ, u64}
use backend_in_c.MQueue.{DeliveryGuarantee, Ptr, Heap, Broker, next_of, write}

-- `mqueue_acknowledge` is a placeholder.
unfoldable pub acknowledge : Option CString → Option Broker → ErrorCode × Option Broker
acknowledge message_id b = (success, b)

-- `mqueue_reject`; the argument `requeue` is not used
unfoldable pub reject : Option CString → Bool → Option Broker → ErrorCode × Option Broker
reject (some message_id) requeue (some b) = (
  success,
  some (record b { queue = record b.queue { total_rejected = (b.total_rejected + 1) % u64 } }),
)
reject message_id requeue b = (error_invalid_param, b)

-- `mqueue_set_delivery_guarantee`
unfoldable pub set_delivery_guarantee :
    DeliveryGuarantee → Option Broker → ErrorCode × Option Broker
set_delivery_guarantee guarantee none = (error_invalid_param, none)
set_delivery_guarantee guarantee (some b) =
    (success, some (record b { queue = record b.queue { guarantee = guarantee } }))

-- `mqueue_set_max_retries`
unfoldable pub set_max_retries : ℤ → Option Broker → ErrorCode × Option Broker
set_max_retries max_retries none = (error_invalid_param, none)
set_max_retries max_retries (some b) =
    (success, some (record b { queue = record b.queue { max_retries = max_retries } }))

-- `mqueue_size`
unfoldable pub size_of : Option Broker → ℕ
size_of none = 0
size_of (some b) = b.size

-- The loop of `mqueue_clear` that frees the nodes; the list has no more of them than `fuel`.
unfoldable pub free_nodes : ℕ → Option Ptr → Heap → Heap
unfolding next_of
free_nodes zero current h = h
free_nodes (suc fuel) none h = h
free_nodes (suc fuel) (some p) h = free_nodes fuel (next_of h p) (write h p none)

-- `mqueue_clear`
unfoldable pub clear : Option Broker → Option Broker
unfolding free_nodes
clear none = none
clear (some b) = some (record b {
  heap = free_nodes (b.size + 1) b.head b.heap;
  queue = record b.queue { head = none; tail = none; size = 0 };
})

pub record Stats : Type 0 where
  pub total_published : ℕ
  pub total_consumed : ℕ
  pub total_rejected : ℕ
  pub total_retries : ℕ
  pub queue_size : ℕ
  pub consumer_count : ℕ

-- `mqueue_get_stats`
unfoldable pub get_stats : Option Broker → ErrorCode × Option Stats
get_stats none = (error_invalid_param, none)
get_stats (some b) = (
  success,
  some (record {
    total_published = b.total_published;
    total_consumed = b.total_consumed;
    total_rejected = b.total_rejected;
    total_retries = b.total_retries;
    queue_size = b.size;
    consumer_count = b.consumer_count;
  }),
)
