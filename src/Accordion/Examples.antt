-- ===== src/Accordion/Examples.antt =====
-- The accordion of assets/js/jquery.accordion.js with three items.
use twitter_client_server.Prelude.{◌≡◌, refl, true, none, some, List, [], ◌∷◌, arith, All}
use twitter_client_server.Prelude.Int.{pos}
use twitter_client_server.Accordion.{
  Overrides, Layout, Accordion, toggle, scroll, validate, click, on_resize, is_opened,
}
use twitter_client_server.Accordion.Plugin.{
  init, Event, click_item, resized, animation_ended, step, run,
}
use twitter_client_server.Accordion.Open.{IsExclusive, run-init-IsExclusive}
use twitter_client_server.Accordion.Heights.{HasHeight, Calm, run-init-AllHeight}

abbrev item : Layout
item = record { link = 40; top = 100; content = 250 }

abbrev narrow : Layout
narrow = record { link = 60; top = 120; content = 400 }

abbrev three : List Layout
three = item ∷ item ∷ item ∷ []

abbrev exclusive : Overrides
exclusive = record {
  opened = some (pos 1);
  one_opened_item = some true;
  speed = none;
  scroll_speed = none;
}

abbrev usage : List Event
usage =
    click_item 2
    ∷ animation_ended 1
    ∷ animation_ended 2
    ∷ resized (narrow ∷ narrow ∷ narrow ∷ [])
    ∷ click_item 0
    ∷ click_item 0
    ∷ click_item 2
    ∷ []

usage_current : (run (init three exclusive) usage).current ≡ some 2
unfolding init run step click toggle scroll validate on_resize is_opened
usage_current = refl

run-init-IsExclusive_example : IsExclusive (run (init three exclusive) usage)
run-init-IsExclusive_example =
    run-init-IsExclusive three exclusive usage refl
      (omega arith, (tt, (tt, (tt, (omega arith, (omega arith, (omega arith, tt)))))))

usage-Calm : Calm usage (init three exclusive)
unfolding init run step click toggle scroll validate on_resize is_opened
usage-Calm = ((refl, (refl, (refl, tt))), tt)

run-init-AllHeight_example : All HasHeight (run (init three exclusive) usage).items
run-init-AllHeight_example = run-init-AllHeight three exclusive usage usage-Calm

abbrev opened_once : Accordion
opened_once = init three exclusive
