-- ===== src/Gpio.antt =====
-- firmware/common/include/lorahome/gpio_digital.h and firmware/common/src/gpio_digital.c: a digital
-- input with debouncing. The two static tables are the state `Gpio`; the pin access that is installed
-- is an argument, `none` for none. A read of a pin or of the clock changes nothing.
pub mod Debounce
pub mod Device
use lo_ra_home.Prelude.{
  ℕ, zero, suc, ◌+◌, ◌-◌, ◌*◌, ◌/◌, ◌%◌, ◌^◌, List, [], ◌∷◌, Bool, true, false, not, ◌&&◌, Option,
  none, some, ltb, leb, ◌==◌, if◌then◌else◌, get_or, set, replicate, length,
}
use lo_ra_home.Driver.{DrvErr, drv_ok, err_bus, err_state, err_no_channel, Reading, Vtable}

-- `LH_GPIO_MAX_INSTANCES`
abbrev pub max_instances : ℕ
max_instances = 8

-- `LH_GPIO_DEFAULT_DEBOUNCE_MS`
abbrev pub default_debounce_ms : ℕ
default_debounce_ms = 50

-- `LH_GPIO_MAX_DEBOUNCE_MS`
abbrev pub max_debounce_ms : ℕ
max_debounce_ms = 1000

-- `LH_GPIO_MIN_INTERVAL_MS`
abbrev pub gpio_interval_ms : ℕ
gpio_interval_ms = 10

-- `LH_GPIO_CHANNELS`
abbrev pub gpio_channels : ℕ
gpio_channels = 2

-- `instance_t`
pub record Instance : Type 0 where
  pub in_use : Bool
  pub pin : ℕ
  pub debounce_ms : ℕ
  pub active_low : Bool
  pub stable_level : Bool
  pub candidate_level : Bool
  pub candidate_since_us : ℕ
  pub transitions : ℕ
  pub last_sample_us : ℕ

-- `pin_config_t`; the field `set` is `is_set` here.
pub record PinConfig : Type 0 where
  pub is_set : Bool
  pub pin : ℕ
  pub debounce_ms : ℕ
  pub active_low : Bool

-- `g_instances` and `g_configs`
pub record Gpio : Type 0 where
  pub instances : List Instance
  pub configs : List PinConfig

-- `lh_gpio_io_t`: the level of each pin and the time, as they are at one call.
pub record GpioIo : Type 0 where
  pub read_pin : ℕ → Bool
  pub now_us : ℕ

-- An element of zeros of either table.
abbrev pub no_instance : Instance
no_instance = record {
  in_use = false;
  pin = 0;
  debounce_ms = 0;
  active_low = false;
  stable_level = false;
  candidate_level = false;
  candidate_since_us = 0;
  transitions = 0;
  last_sample_us = 0;
}

abbrev pub no_config : PinConfig
no_config = record { is_set = false; pin = 0; debounce_ms = 0; active_low = false }

-- `lh_gpio_reset`
unfoldable pub reset : Gpio
reset = record {
  instances = replicate max_instances no_instance;
  configs = replicate max_instances no_config;
}

-- The number of instances in use in a table.
abbrev pub in_use_among : List Instance → ℕ
in_use_among [] = 0
in_use_among (x ∷ xs) = if x.in_use then suc (in_use_among xs) else in_use_among xs

-- `lh_gpio_instances_in_use`
abbrev pub instances_in_use : Gpio → ℕ
instances_in_use g = in_use_among g.instances

-- The index of the first element that the test takes, from `i` on.
unfoldable pub first_index {ℓ} : {A : Type ℓ} → (A → Bool) → ℕ → List A → Option ℕ
first_index test i [] = none
first_index test i (x ∷ xs) =
    let rest = first_index test (i + 1) xs in if test x then some i else rest

-- `g_configs[i].set && g_configs[i].pin == pin`
abbrev pub is_for : ℕ → PinConfig → Bool
is_for pin c = c.is_set && (c.pin == pin)

-- `lh_gpio_configure`
unfoldable pub configure : Gpio → ℕ → ℕ → Bool → Gpio × Bool
unfolding first_index
configure g pin debounce_ms active_low =
    let entry : PinConfig = record {
      is_set = true;
      pin = pin;
      debounce_ms = debounce_ms;
      active_low = active_low;
    } in
    if ltb max_debounce_ms debounce_ms
    then (g, false)
    else elim (first_index (is_for pin) 0 g.configs) [
      | some i ↦ (record g { configs = set g.configs i entry }, true)
      | none ↦ elim (first_index (λ c. not c.is_set) 0 g.configs) [
        | some i ↦ (record g { configs = set g.configs i entry }, true)
        | none ↦ (g, false)
      ]
    ]

-- `config_for`
unfoldable pub config_for : Gpio → ℕ → Option PinConfig
unfolding first_index
config_for g pin = elim (first_index (is_for pin) 0 g.configs) [
  | none ↦ none
  | some i ↦ some (get_or g.configs i no_config)
]

-- `logical_level`
abbrev pub logical_level : GpioIo → Instance → Bool
logical_level io inst = let raw = io.read_pin inst.pin in if inst.active_low then not raw else raw

-- `gpio_probe`
abbrev pub gpio_probe : Option GpioIo → DrvErr
gpio_probe none = err_bus
gpio_probe (some io) = drv_ok

-- The instance of a pin that `gpio_init` fills.
unfoldable pub fresh_instance : GpioIo → Option PinConfig → ℕ → Instance
fresh_instance io config bus_addr =
    let inst : Instance = record no_instance {
      in_use = true;
      pin = bus_addr;
      debounce_ms = elim config [ none ↦ default_debounce_ms | some c ↦ c.debounce_ms ];
      active_low = elim config [ none ↦ false | some c ↦ c.active_low ];
    } in
    let level = logical_level io inst in
    record inst {
      stable_level = level;
      candidate_level = level;
      candidate_since_us = io.now_us;
      last_sample_us = io.now_us;
    }

-- `gpio_init`; the scratch is its first byte.
unfoldable pub gpio_init : Option GpioIo → Gpio → ℕ → ℕ → Gpio × ℕ × DrvErr
unfolding first_index config_for fresh_instance
gpio_init none g bus_addr scratch = (g, scratch, err_bus)
gpio_init (some io) g bus_addr scratch = elim (first_index (λ x. not x.in_use) 0 g.instances) [
  | none ↦ (g, scratch, err_state)
  | some slot ↦ (
    record g {
      instances = set g.instances slot (fresh_instance io (config_for g bus_addr) bus_addr);
    },
    slot,
    drv_ok,
  )
]

-- `sample` behind the two tests of the level: the window.
unfoldable pub settle : Instance → Bool → ℕ → Instance
settle inst level now_us =
    if leb inst.debounce_ms ((now_us - inst.candidate_since_us) / 1000)
    then record inst {
      stable_level = level;
      transitions =
          if ltb inst.transitions 0xffffffff then inst.transitions + 1 else inst.transitions;
    }
    else inst

-- `level == other`
abbrev pub same_level : Bool → Bool → Bool
same_level true b = b
same_level false b = not b

-- `sample`, for the level that was read; the clock does not run backwards.
unfoldable pub sample : Instance → Bool → ℕ → Instance
unfolding settle
sample inst level now_us =
    let i1 = record inst { last_sample_us = now_us } in
    if same_level level i1.stable_level
    then record i1 { candidate_level = i1.stable_level; candidate_since_us = now_us }
    else let i2 =
        if same_level level i1.candidate_level
        then i1
        else record i1 { candidate_level = level; candidate_since_us = now_us } in
      settle i2 level now_us
