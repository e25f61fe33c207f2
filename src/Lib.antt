-- ===== src/Lib.antt =====
-- A small Twitter: the servers with their message engine and the STOMP protocol, in Java under
-- twitterEngine, twitterReactorServer and twitterThreadPerClientServer, and the scripts of the page
-- that shows a user's tweets, under twitterClient/twitterClient/assets/js.
--
-- A client's bytes reach the tokenizer of a connection, which cuts them into texts; StompFrame.parse
-- makes a frame of each, StompProtocol calls the one TwitterEngine for it, and the engine sends
-- messages to the protocols of other users, whose connections queue and write them.
--
--   * Engine: twitterEngine/src/spl/twitter/engine. Users and topics are objects in a store, the maps
--     of the engine hold references to them. The parent has the methods of User.java and Topic.java;
--     Calls has `connect`, `subscribe`, `unsubscribe` and `Topic.send` of TwitterEngine.java and
--     Topic.java, Mentions the search for @names, Post `send` (here `post`) and
--     `processServerMessage`. Inbox, Copies and Mentioned say who gets which copies of a post; Sound,
--     Links, Unlink, Reset, Login, Create, Created, Linked and Posted follow the links between users
--     and topics through each call; Faults shows where the engine fails.
--   * Stomp: twitterEngine/src/spl/stomp/protocol. The parent has the frames and `toString` (here
--     `print`), Parse has `StompFrame.parse`, Protocol has StompProtocol.java and the round of a
--     connection (`process` of twitterThreadPerClientServer/src/spl/twitter/server/ConnectionHandler.java),
--     Server the connections with their queues. Tokenizer is StompFrameTokenizer.java and the loop of
--     ProtocolTask.java of twitterReactorServer/src/spl/twitter; Client is how the console client
--     writes a frame, `toString` of StompFrame.cpp and `sendFrame` of TwitterClient.cpp under
--     twitterClient/twitterClient/src/stomp. RoundTrip and Wire are about writing and parsing, Chunks
--     about the tokenizer, Service and Rounds about any rounds on any connections against the abstract
--     view of who is given what, Frames about the queue and the written frames of each connection,
--     Locked about connections with no login.
--   * Contact: contact.js; `check_email` is `checkEmail`, `send_message` is `sendMessage`. Email and
--     Pattern are about the pattern, Requests about what is sent.
--   * Custom: custom.js; Effects joins its handlers with the events of Inview.
--
-- The scripts of the page:
--
-- A component of a page is a state, a function for each handler, timer and public method, and a
-- relation between them: `step` takes a state and an event (a click, a key, a call, a timer that
-- runs out, the end of an animation) to the next state, and `run` takes any sequence of events, in
-- any order. What a script asks of jQuery is kept as a list of calls, the newest first; what the
-- browser decides (its features, sizes, the random number) is an argument.
--
--   * Prelude: the names that all share, lists and integers over the native numbers.
--   * Browser: `setTimeout` and `clearTimeout`, with the laws of their handles in Browser/Laws.
--   * Cslider: jquery.cslider.js. `Slider` is the object of `$.Slider`; `navigate`, `update_page`,
--     `start_slideshow` and `page` are its methods, `click_next` and the others its listeners,
--     `call_method` and `create` the two uses of `$.fn.cslider`.
--   * RefineSlide: jquery.refineslide.js. `Rs` is the object `RS`; Transition finds what a
--     transition comes down to, Grid cuts an image into gridlets, Rs has `transition`, `before`,
--     `after`, `next` and `prev`; ImagesLoaded is the plugin `imagesLoaded` of that file.
--   * Slitslider: jquery.slitslider.js. `validate_values` is `_validateValues`, `navigate` is
--     `_navigate`, and the public methods `next`, `previous`, `jump`, `play`, `pause` and `add`
--     keep their names but for `next`, which is `go_next`;
--     Plugin is `$.fn.slitslider`.
--   * Flexslider: jquery.flexslider.js. `flex_animate` is `flexAnimate`, `wrapup`, `can_advance`,
--     `play` and `pause` are the methods of these names, `target` is what `getTarget` returns.
--     Slides has `addSlide`, `removeSlide` and `update`, Controls the arrows and the button of
--     `directionNav` and `pausePlay`, Carousel the pages of a carousel in `doMath`.
--   * Accordion: jquery.accordion.js. `toggle` is `_toggleItem`, `click` and `on_resize` are the
--     listeners of `_initEvents`, `plugin` is `$.fn.accordion`.
--   * Inview: jquery.inview.js; `on_scroll` is its listener, `check` what that does to an element.
--   * Debounce: the events `smartresize` and `debouncedresize`, of jquery.accordion.js and
--     jquery.slitslider.js.
--
-- In each component, the files below the definitions hold what is proved of them, and Examples
-- uses that at concrete inputs.
--
-- Bounds: `RefineSlide.Transition.plan` takes fuel, for the calls of one transition's method by
-- another; `stack_limit` gives it 10000 where three are enough unless a cube falls back to a cube.
-- `Stomp.Tokenizer.take_messages` takes
-- as fuel the length of the buffer, and each round takes a delimiter out of it.
-- `Flexslider.Slides.update` takes the number of its calls of itself, of which two are enough.
-- Everything else is structural. Java's texts are lists of UTF-16 units; what the decoder makes of a
-- chunk of bytes, the clock, the random ids and the text of the statistics are arguments. Each call
-- of the engine is atomic, as are the rounds of a connection; the rounds of several connections come
-- in any order. Durations are not modelled: a pending timer may run out at any
-- time, so that what is proved holds for all of them.
--
-- Not modelled: of the engine the text of the statistics and the average of the post times; of the
-- servers sockets, selectors, threads, what two calls at once do to each other, and the reader of
-- frames of the thread-per-client server; of the console client all but how it writes a frame; of
-- Flexslider the animation of a carousel and the widths of its items, which are floating-point numbers
-- (how many fit is an argument), sliders that steer or mirror others and the touch handlers; of
-- Slitslider `destroy`; of RefineSlide the styles of a cube; of custom.js the calls of plugins and the
-- fading of overlays; jQuery, Modernizr and the other libraries, which are called; styles that are set
-- once and that nothing reads.
pub mod Prelude
pub mod Browser
pub mod Cslider
pub mod RefineSlide
pub mod Slitslider
pub mod Debounce
pub mod Flexslider
pub mod Inview
pub mod Accordion
pub mod Engine
pub mod Stomp
pub mod Contact
pub mod Custom
