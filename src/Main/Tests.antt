-- ===== src/Main/Tests.antt =====
-- The second of the two hosts starts.
use cs451_2021_project.Base.{◌≡◌, ◌≤◌, refl, arith, true, [], ◌∷◌, some, inl, inr}
use cs451_2021_project.Address.{get_sockaddr_by_id}
use cs451_2021_project.Config.{parsed, parse_config, parse_lcausal_config, parse_lines}
use cs451_2021_project.Config.Tests.{text}
use cs451_2021_project.Arguments.Accepted.{filled}
use cs451_2021_project.Arguments.Tests.{stoul, arguments, parsed_arguments}
use cs451_2021_project.Hosts.Tests.{
  sort, sort-Sorts, scan, net, lines, host_2, both_read, both_differ, both_sorted,
}
use cs451_2021_project.App.{App, app_run}
use cs451_2021_project.App.Start.{initialised, app_init_lem}
use cs451_2021_project.App.Tests.{infos, blank, one_message, file}
use cs451_2021_project.Main.{Files, main, main_runs}
use cs451_2021_project.Main.Addresses.{address_of, main-addresses, main-binds}

abbrev files : Files
files = record { lines = λ _. some lines; config = λ _. file }

abbrev begun : App
begun = initialised blank (b'o' ∷ []) 2 infos one_message

main_begins : main text stoul sort scan net files blank true arguments ≡ parsed begun
unfolding main parse_config parse_lcausal_config parse_lines
main_begins =
    rw (parsed_arguments, both_sorted)
      (app_init_lem text blank (b'o' ∷ []) file 2 infos one_message refl (omega arith))

main-addresses_example : (1 ≤ 2) × (2 ≤ 2) × (begun.addresses 1 ≡ address_of host_2)
unfolding sort
main-addresses_example =
    main-addresses text stoul sort scan net files blank true arguments (filled arguments 2) host_2
      lines sort-Sorts parsed_arguments refl both_read both_differ main_begins (inr (inl refl))

main_runs_begins :
    main_runs text stoul sort scan net files blank true (λ _. true) (address_of host_2) arguments
    ≡ parsed begun
unfolding main_runs app_run
main_runs_begins = rw main_begins refl

main-binds_example :
    (get_sockaddr_by_id (address_of host_2) begun.process_id begun.infos ≡ address_of host_2)
    × (true ≡ true)
unfolding sort
main-binds_example =
    main-binds text stoul sort scan net files blank true (λ _. true) (address_of host_2) arguments
      (filled arguments 2) host_2 lines sort-Sorts parsed_arguments refl both_read both_differ
      main_runs_begins (inr (inl refl)) refl
