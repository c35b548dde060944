-- ===== src/Distributed/Memory.antt =====
-- The memory of the tokens, breakers and retry policies of src/distributed/distributed.c. A token has a
-- block and its user's name another; a breaker and a policy are one block each.
use backend_in_c.Prelude.{ℕ, ◌+◌, ◌≡◌, ◌∙◌, ap, refl, Option, none, some, arith}
use backend_in_c.Common.Blocks.{Blocks, allocate, release, release-to}
use backend_in_c.Distributed.AuthToken.{AuthToken}
use backend_in_c.Distributed.CircuitBreaker.{CircuitBreaker}
use backend_in_c.Distributed.RetryPolicy.{RetryPolicy}

-- What `auth_token_create` and `auth_token_deserialize` allocate for the token that they give
unfoldable pub token_blocks : Option AuthToken → Blocks → Blocks
token_blocks none blocks = blocks
token_blocks (some token) blocks = allocate 2 blocks

-- `auth_token_destroy`
unfoldable pub token_destroy : Option AuthToken → Blocks → Blocks
token_destroy none blocks = blocks
token_destroy (some token) blocks = release 1 (release 1 blocks)

-- `circuit_breaker_create` and `circuit_breaker_destroy`
unfoldable pub breaker_create_blocks : Blocks → Blocks
breaker_create_blocks blocks = allocate 1 blocks

unfoldable pub breaker_destroy : Option CircuitBreaker → Blocks → Blocks
breaker_destroy none blocks = blocks
breaker_destroy (some breaker) blocks = release 1 blocks

-- `retry_policy_create` and `retry_policy_destroy`
unfoldable pub policy_create_blocks : Blocks → Blocks
policy_create_blocks blocks = allocate 1 blocks

unfoldable pub policy_destroy : Option RetryPolicy → Blocks → Blocks
policy_destroy none blocks = blocks
policy_destroy (some policy) blocks = release 1 blocks

-- A token that is destroyed leaves as many blocks as there were before it was made.
pub token_destroy-blocks :
    (token : Option AuthToken) (live : ℕ)
    → token_destroy token (token_blocks token (some live)) ≡ some live
unfolding token_destroy token_blocks allocate
token_destroy-blocks none live = refl
token_destroy-blocks (some token) live =
    ap (release 1) (release-to 1 (live + 2) (live + 1) (omega arith))
    ∙ release-to 1 (live + 1) live refl

pub breaker_destroy-blocks :
    (breaker : CircuitBreaker) (live : ℕ)
    → breaker_destroy (some breaker) (breaker_create_blocks (some live)) ≡ some live
unfolding breaker_destroy breaker_create_blocks allocate
breaker_destroy-blocks breaker live = release-to 1 (live + 1) live refl

pub policy_destroy-blocks :
    (policy : RetryPolicy) (live : ℕ)
    → policy_destroy (some policy) (policy_create_blocks (some live)) ≡ some live
unfolding policy_destroy policy_create_blocks allocate
policy_destroy-blocks policy live = release-to 1 (live + 1) live refl
