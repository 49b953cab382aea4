-- ===== src/Stdio/Format.antt =====
-- The format language of sdk/src/stdio.c: what vsnprintf_internal and vprintf have in common, their
-- loop over the format, the parts of a directive and the arguments. A format is the bytes of its
-- string; `*fmt == 0` is the empty list. A `va_list` is the list of arguments still to be read, and
-- reading one that is not there, or of the other kind, is undefined behaviour.
pub mod Directive
pub mod Run
pub mod Loop
pub mod Refined
