-- ===== src/Core/Config/Tests.antt =====
-- Updates of the default configuration.
use ayafileio.Base.{◌≡◌, ◌⊎◌, refl, [], ◌∷◌, arith}
use ayafileio.Core.Result.{ok, throws, invalid_argument}
use ayafileio.Core.Config.{Config, defaults, validate, update, set_key, set_keys, update_partial}
use ayafileio.Core.Config.Update.{IsConfig, update-IsConfig, update_partial-throws}

defaults-IsConfig : IsConfig defaults
defaults-IsConfig = omega arith

abbrev no_batch : Config
no_batch = record defaults { iocp_batch_size = 0 }

update-IsConfig_example :
    let (r, c) = update defaults no_batch in
    IsConfig c
    × (((r ≡ ok tt) × IsConfig no_batch × (c ≡ no_batch))
        ⊎ ((r ≡ throws (invalid_argument "Invalid configuration"))
            × (¬ IsConfig no_batch)
            × (c ≡ defaults)))
update-IsConfig_example = update-IsConfig defaults no_batch defaults-IsConfig

partial_result : update_partial defaults (("buffer_size", 0) ∷ []) ≡ (
  throws (invalid_argument "Invalid configuration after update"),
  record defaults { buffer_size = 0 },
)
unfolding update_partial set_keys set_key validate
partial_result = refl

update_partial-throws_example : ¬ IsConfig (update_partial defaults (("buffer_size", 0) ∷ [])).1
update_partial-throws_example =
    update_partial-throws defaults (("buffer_size", 0) ∷ []) (λ e. cc partial_result)
