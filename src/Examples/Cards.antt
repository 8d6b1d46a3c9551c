-- ===== src/Examples/Cards.antt =====
-- Two graphics cards, on a float that drops fractions.
use vllm_chill.Prelude.{
  ℕ, ◌+◌, ◌-◌, ◌*◌, ◌/◌, ◌≤◌, codes, arith, ◌≡◌, refl, true, none, some, [], ◌∷◌, ℤ, pos, negsuc,
  ok,
}
use vllm_chill.Gpu.Nvml.{Nvml, Floats}
use vllm_chill.Gpu.Device.{Gpu, GpuStats, query_device_stats}
use vllm_chill.Gpu.Device.Memory.{IsRounded, IsBounded, query_device_stats-IsBounded}
use vllm_chill.Gpu.Utils.{get_gpu_count, get_gpu_compute_capability, get_gpu_info}
use vllm_chill.Gpu.Utils.Balanced.{IsCounted, functions_balance}
use vllm_chill.Gpu.Handler.{Handler, new_handler, query_gpu_stats, query_counted, query_devices}
use vllm_chill.Gpu.Handler.Cached.{serve_each}
use vllm_chill.Gpu.Handler.Failed.{refusal, failure_is_final}

abbrev natural : ℤ → ℕ
natural (pos n) = n
natural (negsuc n) = 0

abbrev pub whole : Floats
whole = record { Float = ℕ; from_int = natural; divide = λ x y. x / y; multiply = λ x y. x * y }

whole-IsRounded : IsRounded whole
whole-IsRounded = record {
  Le = λ x y. x ≤ y;
  converts = λ m n h. h;
  divide_mono = λ x y n h le. grind arith;
  divide_self = λ n h. grind arith;
  multiply_mono = λ x y n le. grind arith;
  one_multiply = λ x. omega arith;
}

record Machine : Type 0 where
  clock : ℕ
  opened : ℕ

abbrev cards : Nvml
cards = record {
  Driver = Machine;
  Device = ℕ;
  init = λ d. (0, record d { opened = d.opened + 1 });
  shutdown = λ d. (0, record d { opened = d.opened - 1 });
  device_get_count = λ d. (pos 2, 0, d);
  device_get_handle_by_index = λ i d. (i, 0, d);
  get_cuda_compute_capability = λ v d. (pos 8, pos 6, 0, d);
  get_name = λ v d. (codes "card", 0, d);
  get_uuid = λ v d. ([], 1, d);
  get_utilization_rates = λ v d. (75, 0, d);
  get_memory_info = λ v d. (1048576 * 600, 1048576 * 1000, 0, d);
  get_temperature = λ v d. (65, 0, d);
  get_power_usage = λ v d. (250000, 0, d);
  get_power_management_limit = λ v d. (350000, 0, d);
  get_fan_speed = λ v d. (40, 0, d);
  get_encoder_utilization = λ v d. (0, 0, d);
  get_decoder_utilization = λ v d. (0, 0, d);
  error_string = λ ret. codes "error";
  now = λ d. d.clock;
}

abbrev broken_cards : Nvml
broken_cards = record cards { init = λ d. (9, d) }

abbrev machine : ℕ → Machine
machine clock = record { clock = clock; opened = 0 }

query_device_stats-IsBounded_example :
    IsBounded whole whole-IsRounded (query_device_stats whole cards 0 0 (machine 5)).0
query_device_stats-IsBounded_example =
    query_device_stats-IsBounded whole whole-IsRounded cards (λ v d. omega arith) 0 0 (machine 5)

cards-IsCounted : IsCounted cards (λ d. d.opened)
cards-IsCounted = record {
  opens = λ d. refl;
  closes = λ d h. omega arith;
  count_keeps = λ d. refl;
  handle_keeps = λ i d. refl;
  capability_keeps = λ v d. refl;
}

functions_balance_example :
    ((get_gpu_count cards (machine 5)).2.opened ≡ 0)
    × ((get_gpu_compute_capability cards (machine 5)).2.opened ≡ 0)
    × ((get_gpu_info cards (machine 5)).2.opened ≡ 0)
functions_balance_example = functions_balance cards (λ d. d.opened) cards-IsCounted (machine 5)

abbrev started_cards : Handler whole cards
started_cards = record {
  cache = none;
  cache_time = 0;
  cache_ttl = 1000000000;
  nvml_initialized = true;
  driver = machine 7;
}

abbrev card : ℕ → Gpu whole
card i = record {
  index = i;
  name = codes "card";
  uuid = [];
  utilization = 75;
  memory_used = pos 600;
  memory_total = pos 1000;
  memory_util = 0;
  temperature = 65;
  power_draw = 250;
  power_limit = 350;
  fan_speed = 40;
  encoder_util = 0;
  decoder_util = 0;
}

abbrev two_cards : GpuStats whole
two_cards = record { timestamp = 7; gpus = card 0 ∷ card 1 ∷ [] }

queried : (query_gpu_stats whole cards started_cards).0 ≡ ok two_cards
unfolding query_gpu_stats query_counted query_devices query_device_stats
queried = refl

-- less than half a second later
abbrev later : Machine → Machine
later d = record d { clock = d.clock + 400000000 }

failure_is_final_example :
    let h = new_handler whole broken_cards (machine 5) in
    serve_each whole broken_cards (later ∷ later ∷ []) h ≡ (
      some (refusal whole broken_cards) ∷ some (refusal whole broken_cards) ∷ [],
      record h { driver = later (later h.driver) },
    )
failure_is_final_example =
    failure_is_final whole broken_cards (machine 5) (later ∷ later ∷ []) (omega arith)
