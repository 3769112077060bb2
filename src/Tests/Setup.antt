-- ===== src/Tests/Setup.antt =====
-- The theorems about the commands that configure a guild (crates/tulpje-mod-pluralkit) at a concrete
-- outside.
use tulpje.Prelude.{false, true, none, some, [], ◌∷◌, ◌≡◌, refl, text}
use tulpje.Pluralkit.Util.{id, from_str, normalize_short_id}
use tulpje.Pluralkit.Database.Action.{World, Ends, ◌>>=◌, query}
use tulpje.Pluralkit.Database.Systems.{get_guild_settings_for_id, get_system}
use tulpje.Pluralkit.Database.Fronters.{get_fronter_category, save_fronter_category}
use tulpje.Pluralkit.Fronts.Shared.{get_system_fronters, read_front}
use tulpje.Pluralkit.Fronts.Channels.{
  update_fronter_channels, get_fronter_channels, named, positions, delete_channels, create_channels,
  move_channels,
}
use tulpje.Pluralkit.Fronts.Remote.{front_is, system_is}
use tulpje.Pluralkit.Fronts.Setup.{Host, setup, setup_fronters}
use tulpje.Pluralkit.Fronts.Configured.{Configures, setup-Configures}
use tulpje.Pluralkit.Fronts.Confirmed.{Smooth, Sets, setup-Sets}
use tulpje.Pluralkit.Fronts.Recategorised.{Saves, setup_fronters-Saves}
use tulpje.Tests.FrontSample.{Slots, system_at, sample_remote}

-- Guild 1 is configured for system 5, guild 2 for system 6.
abbrev setup_world : World Slots
setup_world = record {
  tables = record {
    guilds =
        record { guild_id = 1; created_at = 0; updated_at = 0; deleted_at = none }
        ∷ record { guild_id = 2; created_at = 0; updated_at = 0; deleted_at = none }
        ∷ [];
    systems = system_at 5 ∷ system_at 6 ∷ [];
    guild_settings =
        record { guild_id = 1; user_id = 4; system_uuid = 5 }
        ∷ record { guild_id = 2; user_id = 4; system_uuid = 6 }
        ∷ [];
    categories = [];
    fronts = [];
    channels = [];
    follows = [];
  };
  outside = record { size = 0; at = λ i. none; messages = []; asked = [] };
  panicked = false;
}

-- The user confirms, and the category is the channel 3.
abbrev setup_host : Host Slots
setup_host = record {
  remote = sample_remote (front_is none) (system_is (system_at 7));
  confirm = λ prompt denied g. (some true, g);
  current_user = λ g. (some 99, g);
  handle_permissions = λ guild user g. (some true, g);
  create_category = λ guild bot title g. (some 3, g);
}

setup-Configures_example :
    Ends
      (Configures setup_host 1 4 (text "abcde") setup_world)
      (setup setup_host 1 4 (text "abcde") setup_world)
setup-Configures_example = setup-Configures setup_host 1 4 (text "abcde") setup_world

setup_host-Smooth : Smooth setup_host (id (text "abcde")) (system_at 7)
unfolding sample_remote
setup_host-Smooth = record {
  up = λ g. (1000000000, refl);
  known = λ g. refl;
  confirmed = λ prompt denied g. refl;
  replied = λ message g. refl;
}

setup-Sets_example :
    Ends
      (Sets setup_host 1 4
        (id (text "abcde"))
        (system_at 7)
        setup_host-Smooth
        setup_world.tables.guild_settings)
      (setup setup_host 1 4 (text "abcde") setup_world)
unfolding from_str sample_remote normalize_short_id
setup-Sets_example =
    setup-Sets setup_host 1 4 (id (text "abcde")) (system_at 7) setup_host-Smooth (text "abcde")
      setup_world refl refl

setup_fronters-Saves_example :
    Ends
      (Saves setup_host 1
        (text "Fronters")
        setup_world.tables.guild_settings
        setup_world.tables.categories)
      (setup_fronters setup_host 1 (text "Fronters") setup_world)
setup_fronters-Saves_example = setup_fronters-Saves setup_host 1 (text "Fronters") setup_world

-- The run gives guild 1 the category.
stores_category :
    (setup_fronters setup_host 1 (text "Fronters") setup_world).1.tables.categories
    ≡ record { guild_id = 1; category_id = 3 } ∷ []
unfolding setup_fronters ◌>>=◌ query get_guild_settings_for_id sample_remote get_fronter_category
    get_system get_system_fronters read_front update_fronter_channels get_fronter_channels named
    positions delete_channels create_channels move_channels save_fronter_category
stores_category = refl
