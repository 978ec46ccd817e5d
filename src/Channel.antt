-- ===== src/Channel.antt =====
-- src/channel.cpp, include/octo-logger-cpp/{channel.hpp, channel-view.hpp, log.hpp, logger.hpp}: the
-- objects that logging is about, and the memory that the channels stand in. A std::shared_ptr to a
-- channel is its address; a channel stays in memory for good, as no code looks at one that is gone.
use octo_logger_cpp.Prelude.{
  ℕ, Option, none, some, List, [], ◌∷◌, ◌++◌, get_elem?, set, if◌then◌else◌, ◌==◌,
}
use octo_logger_cpp.Prelude.Text.{Text}
use octo_logger_cpp.Level.{LogLevel}
use octo_logger_cpp.Context.{ContextInfo}

pub record Channel : Type 0 where
  pub channel_name : Text
  pub channel_level : LogLevel

abbrev pub ChannelPtr : Type 0
ChannelPtr = ℕ

abbrev pub Heap : Type 0
Heap = List Channel

-- A ChannelView holds a ChannelPtr, and both channel() and editable_channel() are *channel_.
abbrev pub deref : ChannelPtr → Heap → Option Channel
deref p heap = get_elem? heap p

abbrev pub write_level : ChannelPtr → LogLevel → Option Channel → Heap → Heap
write_level p level none heap = heap
write_level p level (some c) heap = set heap p (record c { channel_level = level })

-- channel->set_log_level(level) through a pointer
unfoldable pub set_log_level : LogLevel → ChannelPtr → Heap → Heap
set_log_level level p heap = write_level p level (deref p heap) heap

-- A std::string_view: its bytes, and those that follow them in memory up to the next NUL.
pub record StringView : Type 0 where
  pub bytes : Text
  pub after : Text

-- std::string(view.data()): the bytes up to the first NUL.
unfoldable pub until_nul : Text → Text
until_nul [] = []
until_nul (c ∷ s) = if c == 0 then [] else c ∷ until_nul s

unfoldable pub c_string : StringView → Text
c_string v = until_nul (v.bytes ++ v.after)

pub record Logger : Type 0 where
  pub context_info : ContextInfo
  pub channel_view : ChannelPtr

-- A log as it is being made. `stream` is the text of the std::ostringstream, if there is one; the logger
-- it refers to is given anew where it is used, since it may change in the meantime. `time_created` is in
-- milliseconds since the epoch, where it starts.
pub record Log : Type 0 where
  pub stream : Option Text
  pub log_level : LogLevel
  pub time_created : ℕ
  pub extra_identifier : Text
  pub log_context_info : ContextInfo
