-- ===== src/Lib.antt =====
-- Verification library of The AI Cowboys' 6-Shooter: its memory layer, the local replica of the
-- pools' state, the engine that searches it for arbitrage and turns what it finds into signed
-- transactions, the batch auction, the treasury, and the arithmetic of its prover.
--
-- The program watches the pools of a chain, keeps a replica of their reserves, applies pending swaps
-- to the replica to see what prices they would leave, and looks for cycles of swaps that end with
-- more than they began with. `StateShadow` is the replica: the block listener confirms reserves and
-- announces blocks, the mempool listener applies pending swaps, and the solvers simulate swaps and
-- look pools up. `Aste` drives them: it hands every event to the replica, rebuilds the `PriceGraph`
-- from it, sizes the cycles of the graph with `SimdSolver` and builds a bundle of the best, which
-- `BundleConstructor` would submit through `LiveExecutor`. The solvers of the slower path use
-- `SoAOrderBook` and `AmmPool`, and every cycle allocates from an `Arena`.
--
-- The files, by the source they model:
--   Memory/Arena         src/memory/arena.rs, `Arena`: `new`, `alloc`, `alloc_typed`,
--                        `alloc_slice`, `reset` and `used` have the source's names. `alloc` there is
--                        one undisturbed call; Memory/Arena/Threads has the same loop in its atomic
--                        steps, for any number of threads.
--   Memory/OrderBook     src/memory/cache.rs, `SoAOrderBook`: `with_capacity`, `push`, `clear`,
--                        `argmin_ask`, `argmax_bid`, `detect_arbitrage`.
--   Memory/AmmPool       src/memory/cache.rs, `AmmPool`: `swap_x_to_y`, `swap_y_to_x`,
--                        `optimal_arb_input` with its two loops `narrow` and `converge`.
--   Mev/StateShadow      src/mev/state_shadow.rs, `StateShadow`: `new`, `register_pool`,
--                        `update_reserves`, `recompute_price`; StateShadow/Simulation has
--                        `apply_speculative_swap`, `sim_swap`, `revert_speculative` and
--                        `on_new_block`, and StateShadow/Queries has `find_pool`,
--                        `find_pools_for_pair` and the two effective rates.
--                        StateShadow/Events runs sequences of these operations.
--   Mev/Graph            src/mev/graph.rs, `PriceGraph`: `build_from_shadow` with `add_edge` and
--                        `get_or_create_node`; Graph/Cycles has `find_arbitrage_cycles` and
--                        Graph/Path `reconstruct_cycle`.
--   Mev/SimdSolver       src/mev/simd_solver.rs, `SimdSolver`: `evaluate_batch`,
--                        `evaluate_single`, `simulate_cycle` and `binary_search_optimal`;
--                        SimdSolver/Branchless and SimdSolver/Spread have the free functions.
--   Zk/Montgomery        src/zk_prover/montgomery.rs, `MontgomeryU256`: every operation under its
--                        own name; Zk/Montgomery/Limbs and its siblings hold the proofs.
--   Zk/Fields            src/zk_prover/fields.rs: the Barrett reducer, `mod_pow` with its loop on 64
--                        rounds, which shift any word of the exponent to zero, and
--                        `legendre_symbol`; Fields/Integers has `extended_gcd` and `mod_inverse`, with as
--                        many calls as the first argument and one, and Fields/Binary `binary_gcd`,
--                        with as many rounds as the sum of its numbers.
--   Zk/Ntt               src/zk_prover/ntt.rs: `bit_reverse`.
--   Net/Base58           src/net/solana.rs, `bs58_encode` and `bs58_decode`; the loops over the
--                        digits, which differ in their bases alone, are `scale_digits`.
--   Net/Solana           src/net/solana.rs, `SolanaTransaction`, `build_transfer_ix` and
--                        `compact_u16_encode`; Solana/Wire is a decoder of the format, which the
--                        program does not have.
--   Mev/Executor         src/mev/executor.rs, `build_raydium_swap`, `build_generic_swap` and
--                        `LiveExecutor::execute_arbitrage` down to the bytes that it sends.
--   Mev/Bundle           src/mev/bundle.rs, `BundleConstructor`, and the types of
--                        src/mev/router.rs.
--   Mev/Aste             src/mev/aste.rs, `Aste`: `process_event`, whose branch on a pending swap is
--                        `pending`, `solve` and `take_best`, `execute_arb`, `register_pool` and
--                        the loop of `run_aste`.
--   Mev/Amm              src/mev/amm.rs, `parse_swap_instruction`, one function for each program,
--                        on the `MempoolTransaction` of src/net/p2p.rs; Amm/Registry has
--                        `PoolRegistry`.
--   Mev/Router           src/mev/router.rs, `RouteOptimizer`: `find_arbitrage`, the search of
--                        `optimize_input` with its 60 rounds, `find_multihop_arbitrage`.
--   Mev/Solver           src/mev/solver.rs, `IntentSolver`: `new`, `add_intent`, `clear`,
--                        `pending_count` and `solve_batch`, whose loop over two sides is
--                        `match_loop`, with two rounds for each offer and one to stop.
--   Treasury/Base64      src/treasury/offramp.rs, `base64_encode` and `base64_decode`, and
--                        src/mev/executor.rs, `base64_decode_simple`.
--   Treasury/Offramp     src/treasury/offramp.rs, `OfframpClient::new` and `execute_offramp`, and the
--                        configuration of src/treasury/mod.rs.
--   Treasury/Pipeline    src/treasury/mod.rs, `run`, with `consolidate_to_stablecoin` of
--                        src/treasury/keeper.rs.
--   Zk/Msm               src/zk_prover/msm.rs: the points, `extract_window` and `pippenger_msm`.
--   Prelude              the shared tests, words, lists and masks; it models no code.
-- The other children of a module hold the proofs, and each `Tests` runs the model.
--
-- Numbers. A machine word is a number; its operations wrap as the release profile has them
-- (Prelude/Words), and a division by zero or an index out of range is `none`, the panic of the code.
-- An `i128` is its bit pattern. The 32 bytes of a key are one number in Memory and in
-- Mev/StateShadow, and the list of them where they are serialised. Where a theorem needs that no
-- product or sum wraps, the bound is among its hypotheses.
--
-- Graph. The operations on `f64` that build the weights are a parameter, the record `Float64`, so the
-- weights are whatever they give; an `i32` weight is its distance above the least `i32`.
--
-- Bytes. A byte is a number below 256. The signature scheme, the
-- blockhash and the tip account, which come from a library and from the network, are arguments.
--
-- Loops. A loop over a range is recursion on the rounds left, with the number of rounds that the
-- source's range has. The ternary search has the source's own bound of 60 rounds. The
-- search of `binary_search_optimal` has the solver's own number of rounds. The loop of
-- `alloc` retries without a bound, so it is a step relation.
--
-- Treasury. The operations on `f64` are a parameter here too, the record `Amounts`; what the chain,
-- the exchange and the clock answer in one round is the record `World`. A run of the loop is a list
-- of such answers, one for each round before the shutdown.
--
-- Points. That the operations on points form a group is not stated, and for the mixed addition of
-- equal points it fails; so what the sum by buckets stands for is not stated either.
--
-- Maps. A `HashMap` is an association list, and where the code lists its keys their order is a
-- parameter.
--
-- Not modelled: what reads the clock, the network or the environment, floating point, and the
-- rest of the program: the concentrated pool of src/mev/amm.rs, `mod_sqrt`, the
-- pipeline glue of src/mev, the clients of src/net, the vault and the
-- signed requests of the treasury, the transform and the prover of src/zk_prover, and the
-- machine-learning loop. They are either I/O or not yet translated.
pub mod Prelude
pub mod Memory
pub mod Mev
pub mod Net
pub mod Zk
pub mod Treasury
