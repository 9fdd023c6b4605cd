-- ===== src/Bme680/Device.antt =====
-- bme680.c as a driver: the table of its functions.
use lo_ra_home.Prelude.{ℕ, [], ◌∷◌, some}
use lo_ra_home.Driver.{DrvErr, Reading, Vtable}
use lo_ra_home.Bme680.{bme_channels, bme_warmup_ms, bme_interval_ms, Bme}
use lo_ra_home.Bme680.Chip.{init, start_read, poll, sleep}

module _ {W : Type 0} where
  abbrev with_scratch : ℕ → Bme W × DrvErr → Bme W × ℕ × DrvErr
  with_scratch scratch (s, err) = (s, scratch, err)

  abbrev with_reading : ℕ → Bme W × DrvErr × Reading → Bme W × ℕ × DrvErr × Reading
  with_reading scratch (s, err, out) = (s, scratch, err, out)

-- `LH_BME680_DRIVER`
unfoldable pub bme680_driver : (W : Type 0) → Vtable (Bme W) ℕ
bme680_driver W = record {
  name = 98 ∷ 109 ∷ 101 ∷ 54 ∷ 56 ∷ 48 ∷ [];
  type_id = 16;
  channel_count = bme_channels;
  warmup_ms = bme_warmup_ms;
  min_interval_ms = bme_interval_ms;
  blank = 0;
  init = some (λ s bus_addr scratch. init s bus_addr scratch);
  start_read = some (λ s bus_addr scratch. with_scratch scratch (start_read s scratch));
  poll = λ s bus_addr scratch out channel. with_reading scratch (poll s scratch out channel);
  sleep = some (λ s bus_addr scratch. with_scratch scratch (sleep s scratch));
}
