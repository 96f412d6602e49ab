-- ===== src/Bio/Queues.antt =====
-- demos/bio/bio.c: the request queues, blk_alloc_queue and blk_queue_make_request, and the submission
-- of a bio to the queue of its device. What a driver does with a bio is a parameter.
use os_kernel_from_scratch.Common.{
  ℕ, zero, suc, ◌<◌, ◌≡◌, refl, ap, ◌∙◌, Option, none, some, List, [], ◌∷◌, Bool, true, false,
  arith, if◌then◌else◌, length, get_elem?, set, get_elem?-set_self, length-set,
}
use os_kernel_from_scratch.Bio.{Bio, bio_endio}

-- `bdev` and `make_request_fn` are pointers.
pub record RequestQueue : Type 0 where
  pub bdev : Option ℕ
  pub queue_flags : ℕ
  pub queue_depth : ℕ
  pub make_request_fn : Option ℕ

abbrev pub zero_queue : RequestQueue
zero_queue = record { bdev = none; queue_flags = 0; queue_depth = 0; make_request_fn = none }

abbrev pub has_bdev : RequestQueue → Bool
has_bdev q = elim q.bdev [ none ↦ false | some d ↦ true ]

-- The place in a list with one more queue in front.
unfoldable pub further : Option ℕ → Option ℕ
further none = none
further (some i) = some (suc i)

-- The loop for a queue without a device.
unfoldable pub find_queue : List RequestQueue → Option ℕ
unfolding further
find_queue [] = none
find_queue (q ∷ queues) =
    let rest = further (find_queue queues) in if has_bdev q then rest else some 0

-- The queue, or NULL.
unfoldable pub blk_alloc_queue : List RequestQueue → Option ℕ × List RequestQueue
blk_alloc_queue queues = elim (find_queue queues) [
  | none ↦ (none, queues)
  | some i ↦ (some i, set queues i zero_queue)
]

unfoldable pub blk_queue_make_request : List RequestQueue → ℕ → ℕ → Option (List RequestQueue)
blk_queue_make_request queues i fn = elim (get_elem? queues i) [
  | none ↦ none
  | some q ↦ some (set queues i (record q { make_request_fn = some fn }))
]

-- A device, with its queue if it has one.
pub record BlockDevice : Type 0 where
  pub bd_queue : Option ℕ
  pub bd_block_size : ℕ
  pub bd_io_opt : ℕ

unfoldable pub bdev_logical_block_size : Option BlockDevice → ℕ
bdev_logical_block_size none = 512
bdev_logical_block_size (some bdev) = bdev.bd_block_size

unfoldable pub bdev_io_opt : Option BlockDevice → ℕ
bdev_io_opt none = 4096
bdev_io_opt (some bdev) = bdev.bd_io_opt

-- What happens to a bio that is submitted: it ends at once with -ENODEV, or a driver's function gets it.
pub data Submitted : Type 0 where
  ended : Bio → Submitted
  handed : ℕ → Bio → Submitted

unfoldable pub to_driver : Option ℕ → Bio → Submitted
to_driver none bio = ended (bio_endio bio true)
to_driver (some fn) bio = handed fn bio

unfoldable pub to_queue : List RequestQueue → Option ℕ → Bio → Option Submitted
unfolding to_driver
to_queue queues none bio = some (ended (bio_endio bio true))
to_queue queues (some i) bio = elim (get_elem? queues i) [
  | none ↦ none
  | some q ↦ some (to_driver q.make_request_fn bio)
]

-- `none` for a pointer to no queue.
unfoldable pub submit_bio : List RequestQueue → Option BlockDevice → Bio → Option Submitted
unfolding to_queue
submit_bio queues none bio = some (ended (bio_endio bio true))
submit_bio queues (some bdev) bio = to_queue queues bdev.bd_queue bio

find_queue-lt :
    (queues : List RequestQueue) (i : ℕ) → find_queue queues ≡ some i → i < length queues
unfolding find_queue
find_queue-lt [] i e = absurd (cc)
find_queue-lt (q ∷ queues) zero e = omega arith
find_queue-lt (q ∷ queues) (suc i) e =
    let rest : find_queue queues ≡ some i = ground arith in
    omega (arith, find_queue-lt queues i rest)

-- A queue that is set to one without a device, where the first such queue was, is found again.
find_queue-set :
    (queues : List RequestQueue) (i : ℕ) (q : RequestQueue)
    → find_queue queues ≡ some i
    → q.bdev ≡ none
    → find_queue (set queues i q) ≡ some i
unfolding find_queue
find_queue-set [] i q e free = absurd (cc)
find_queue-set (p ∷ queues) zero q e free = ground arith
find_queue-set (p ∷ queues) (suc i) q e free =
    let rest : find_queue queues ≡ some i = ground arith in
    ground (arith, find_queue-set queues i q rest free)

blk_alloc_queue-found :
    (queues : List RequestQueue) (i : ℕ)
    → find_queue queues ≡ some i
    → blk_alloc_queue queues ≡ (some i, set queues i zero_queue)
unfolding blk_alloc_queue
blk_alloc_queue-found queues i found = rw (blk_alloc_queue, found)

alloc-find_queue :
    (queues : List RequestQueue) (i : ℕ)
    → (blk_alloc_queue queues).0 ≡ some i
    → find_queue queues ≡ some i
unfolding blk_alloc_queue
alloc-find_queue queues i got = ground arith

submit_bio-queue :
    (queues : List RequestQueue) (i : ℕ) (q : RequestQueue) (bdev : BlockDevice) (bio : Bio)
    → bdev.bd_queue ≡ some i
    → get_elem? queues i ≡ some q
    → submit_bio queues (some bdev) bio ≡ some (to_driver q.make_request_fn bio)
unfolding submit_bio
submit_bio-queue queues i q bdev bio on there =
    ap (λ o. to_queue queues o bio) on ∙ rw (to_queue, there)

-- blk_alloc_queue hands out a queue without entering a device. A second call, after the first owner
-- has set his function by blk_queue_make_request and before a device is entered, hands out the same
-- queue and clears that function: a bio for a device on the queue, which was handed to the function
-- before, ends with -ENODEV.
pub blk_alloc_queue-twice :
    (queues : List RequestQueue) (i fn : ℕ) (bdev : BlockDevice) (bio : Bio)
    → (blk_alloc_queue queues).0 ≡ some i
    → bdev.bd_queue ≡ some i
    → (owned : List RequestQueue) × (blk_queue_make_request (blk_alloc_queue queues).1 i fn
        ≡ some owned)
      × (submit_bio owned (some bdev) bio ≡ some (handed fn bio))
      × ((blk_alloc_queue owned).0 ≡ some i)
      × (submit_bio (blk_alloc_queue owned).1 (some bdev) bio ≡ some (ended (bio_endio bio true)))
unfolding blk_queue_make_request to_driver
blk_alloc_queue-twice queues i fn bdev bio got on = (
  owned,
  ap (λ r. blk_queue_make_request r.1 i fn) first ∙ rw (blk_queue_make_request, there),
  submit_bio-queue owned i own bdev bio on (get_elem?-set_self _ i own lt'),
  ap (λ r. r.0) second,
  ap (λ r. submit_bio r.1 (some bdev) bio) second
      ∙ submit_bio-queue (set owned i zero_queue) i zero_queue bdev bio on
          (get_elem?-set_self owned i zero_queue lt''),
)
  where
    found : find_queue queues ≡ some i
    found = alloc-find_queue queues i got

    lt : i < length queues
    lt = find_queue-lt queues i found

    own : RequestQueue
    own = record zero_queue { make_request_fn = some fn }

    owned : List RequestQueue
    owned = set (set queues i zero_queue) i own

    lt' : i < length (set queues i zero_queue)
    lt' = omega (arith, lt, length-set queues i zero_queue)

    lt'' : i < length owned
    lt'' = omega (arith, lt', length-set (set queues i zero_queue) i own)

    first : blk_alloc_queue queues ≡ (some i, set queues i zero_queue)
    first = blk_alloc_queue-found queues i found

    there : get_elem? (set queues i zero_queue) i ≡ some zero_queue
    there = get_elem?-set_self queues i zero_queue lt

    second : blk_alloc_queue owned ≡ (some i, set owned i zero_queue)
    second = blk_alloc_queue-found owned i (
        find_queue-set (set queues i zero_queue) i own
          (find_queue-set queues i zero_queue found refl) refl)
