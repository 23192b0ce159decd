-- ===== src/Tests/Config.antt =====
-- Configurations at concrete inputs: a configuration is a number here, or the text it was loaded
-- from.
use jequi.Prelude.{ℕ, ◌≡◌, refl, none, some, [], ◌∷◌, ◌++◌, Bytes, codes, length, Result, ok}
use jequi.Text.{bytes_eq}
use jequi.Text.Split.{before}
use jequi.FilePath.{pop, components, path_eq}
use jequi.Maps
use jequi.Maps.{bytes_Eq}
use jequi.Config.Select.{
  insert_path, ConfigMap, HostConfig, host_scope, get_config_for_request, lookup_path,
}
use jequi.Config.Longest.{Longest, path_list, get_config_for_request-Longest}
use jequi.Config.Load.{
  load_paths, merge_config_and_load_plugins, load_hosts, ConfigMapParser, HostConfigParser, load,
}
use jequi.Config.Load.Sections.{host_section, path_sections}
use jequi.Config.Load.Requests.{OwnLoad, Chosen, get_config_for_request-load}

abbrev api_host : HostConfig ℕ
api_host = record {
  path = some ((codes "/app", 11) ∷ ((codes "/app/admin/", 12) ∷ []));
  config = 10;
}

abbrev hosts_and_paths : ConfigMap ℕ
hosts_and_paths = record {
  host = some ((codes "jequi.com", api_host) ∷ []);
  path = some ((codes "/test", 2) ∷ []);
  config = 1;
}

get_config_for_request-Longest_example :
    (r : ℕ) × (get_config_for_request hosts_and_paths
        (some (codes "jequi.com:80"))
        (some (codes "/app/admin/users"))
      ≡ some r)
    × Longest
        (path_list (host_scope hosts_and_paths (some (codes "jequi.com:80"))).1)
        (host_scope hosts_and_paths (some (codes "jequi.com:80"))).0
        (components (codes "/app/admin/users"))
        (length (components (codes "/app/admin/users")))
        r
get_config_for_request-Longest_example =
    get_config_for_request-Longest hosts_and_paths (some (codes "jequi.com:80"))
      (codes "/app/admin/users") refl

get_config_for_request_tests :
    (get_config_for_request hosts_and_paths
        (some (codes "jequi.com:80"))
        (some (codes "/app/admin/users"))
      ≡ some 12)
    × (get_config_for_request hosts_and_paths (some (codes "jequi.com")) (some (codes "/apps"))
        ≡ some 10)
    × (get_config_for_request hosts_and_paths none (some (codes "/test/x")) ≡ some 2)
unfolding get_config_for_request Maps.get bytes_eq before lookup_path path_eq components pop
get_config_for_request_tests = (refl, refl, refl)

abbrev add_key : Bytes → Bytes → Bytes → Bytes
add_key section key value = section ++ (key ++ value)

abbrev load_plugins : Bytes → Result Bytes
load_plugins section = ok section

abbrev one_host : HostConfigParser Bytes
one_host = record { path = some ((codes "/app", codes "c") ∷ []); config = codes "b" }

abbrev file : ConfigMapParser Bytes
file = record {
  host = some ((codes "jequi.com", one_host) ∷ []);
  path = some ((codes "/x", codes "d") ∷ ((codes "/y", codes "e") ∷ []));
  config = codes "a";
}

abbrev loaded_host : HostConfig Bytes
loaded_host = record {
  path = some ((codes "/app", codes "cconfig_path/app") ∷ []);
  config = codes "bconfig_hostjequi.com";
}

abbrev loaded : ConfigMap Bytes
loaded = record {
  host = some ((codes "jequi.com", loaded_host) ∷ []);
  path = some ((codes "/x", codes "dconfig_path/x") ∷ ((codes "/y", codes "econfig_path/y") ∷ []));
  config = codes "a";
}

get_config_for_request-load_example :
    (r : Bytes) × (get_config_for_request loaded
        (some (codes "jequi.com:80"))
        (some (codes "/app/admin"))
      ≡ some r)
    × Chosen add_key load_plugins
        (path_sections file (host_section file (some (codes "jequi.com:80"))))
        (OwnLoad add_key load_plugins file (host_section file (some (codes "jequi.com:80"))))
        (components (codes "/app/admin"))
        r
unfolding load lookup_path Maps.get path_eq components bytes_eq load_hosts
    merge_config_and_load_plugins load_paths Maps.insert insert_path
get_config_for_request-load_example =
    get_config_for_request-load add_key load_plugins file loaded (some (codes "jequi.com:80"))
      (codes "/app/admin") refl (refl, (refl, tt), tt) (refl, (refl, tt)) refl
