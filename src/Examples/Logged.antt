-- ===== src/Examples/Logged.antt =====
-- Lines of vLLM's log.
use vllm_chill.Prelude.{ℕ, ◌<◌, codes, true, ltb, none, pos, Option, Bytes, ◌≡◌, ◌++◌, refl, arith}
use vllm_chill.Logs.{KvCacheInfo, parse_kv_cache_info, is_valid}
use vllm_chill.Logs.Captured.{IsRead, parse_kv_cache_info-Fits}
use vllm_chill.Logs.Blocks.{gpu_blocks_line, logged_blocks_are_read}
use vllm_chill.Examples.Cards.{whole}

abbrev no_float : Bytes → Option ℕ
no_float s = none

abbrev read_log : Bytes → KvCacheInfo whole
read_log = parse_kv_cache_info whole no_float

parse_kv_cache_info-Fits_example :
    let logs = codes "Block size: 16, # CPU blocks: 99999999999999999999" in
    let i = read_log logs in
    IsRead (codes "block size:") logs i.block_size
    × IsRead (codes "# gpu blocks:") logs i.num_gpu_blocks
    × IsRead (codes "# cpu blocks:") logs i.num_cpu_blocks
parse_kv_cache_info-Fits_example =
    parse_kv_cache_info-Fits whole no_float
      (codes "Block size: 16, # CPU blocks: 99999999999999999999")

logged_blocks_are_read_example :
    let i = read_log (codes "INFO worker: " ++ gpu_blocks_line 2048 (codes ", ready")) in
    (i.num_gpu_blocks ≡ pos 2048) × (0 < 2048 → is_valid whole ltb i ≡ true)
logged_blocks_are_read_example =
    logged_blocks_are_read whole no_float ltb (codes "INFO worker: ") (codes ", ready") 2048 refl
      refl (omega arith)
